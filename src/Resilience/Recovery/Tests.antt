-- ===== src/Resilience/Recovery/Tests.antt =====
-- Recoveries from concrete checkpoints.
use ai_agent_code.Common.{◌+◌, ◌≡◌, refl, true, none, some, List, [], ◌∷◌, string_key, nat_key}
use ai_agent_code.Resilience.Recovery.{
  Checkpoint, Check, recover, check_context_present, check_idempotency_complete,
  check_cost_not_negative,
}

abbrev checks : List Check
checks = check_context_present ∷ check_idempotency_complete ∷ check_cost_not_negative ∷ []

abbrev broken : Checkpoint
broken = record {
  checkpoint_id = some "c1";
  has_state = true;
  idempotency_keys = some "k1" ∷ none ∷ [];
  negative_cost = true;
}

two_issues :
    (recover checks broken (some (λ c w. w + 1)) 4).1.report.issues
    ≡ "tool call missing idempotency_key" ∷ "negative accumulated cost" ∷ []
unfolding recover check_context_present check_idempotency_complete check_cost_not_negative
two_issues = refl
