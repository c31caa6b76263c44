-- ===== src/Mcp/Approval/Tests.antt =====
-- Decisions on a concrete gate, and the theorems at concrete inputs.
use ai_agent_code.Common.{◌≡◌, refl, true, none, List, [], ◌∷◌, String, string_key, nat_key}
use ai_agent_code.Mcp.Approval.{
  ApprovalRequest, ApprovalGate, pending, timeout, init, request, stats, Other, requests, approves,
  wait_for_decision,
}
use ai_agent_code.Mcp.Approval.Decisions.{
  IsValid, IsWaiting, approves_in, wait_for_decision-approved,
}

abbrev waiting_request : ApprovalRequest String
waiting_request = record {
  request_id = "r1";
  tool_name = "cli";
  arguments = "rm -r build";
  created_at = 10;
  status = pending;
  decided_at = none;
}

abbrev gate : ApprovalGate String
gate = record { timeout_seconds = 300; waiting = ("r1", waiting_request) ∷ []; decided = [] }

requested : request (init 300) "r1" "cli" "rm -r build" 10 ≡ gate
unfolding request init
requested = refl

-- The user approves in the second sleep.
abbrev rounds : List (List (Other String))
rounds = [] ∷ (requests "r2" "ocr" "scan" 12 ∷ approves "r1" 13 ∷ []) ∷ [] ∷ []

told_yes : (wait_for_decision gate "r1" rounds 310).1 ≡ true
unfolding wait_for_decision
told_yes = refl

timed_out : stats (wait_for_decision gate "r1" ([] ∷ []) 310).0 timeout ≡ 1
unfolding wait_for_decision stats
timed_out = refl

wait_for_decision-approved_example :
    approves_in "r1" (wait_for_decision gate "r1" rounds 310).0.decided ≡ true
unfolding IsValid IsWaiting
wait_for_decision-approved_example =
    wait_for_decision-approved gate "r1" rounds 310 ((refl, refl), tt)
      (unfold wait_for_decision in refl)
