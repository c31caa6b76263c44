-- ===== src/Conversation/Fsm/Tests.antt =====
-- Runs of the dialog machine, and the theorems at concrete inputs.
use ai_agent_code.Common.{ℕ, ◌≡◌, refl, true, false, List, [], ◌∷◌, String, string_key, nat_key}
use ai_agent_code.Conversation.Fsm.{
  executing, waiting_approval, Call, triggers, registers, init, check_timeout, get_remaining_time,
  run,
}
use ai_agent_code.Conversation.Fsm.History.{IsWalk, run-IsWalk}
use ai_agent_code.Conversation.Fsm.Safety.{under_way, released, run-released}

abbrev dialog : List (ℕ × Call String)
dialog =
    (1, registers "confirmed" "audit")
    ∷ (2, triggers "start")
    ∷ (3, triggers "greeted")
    ∷ (4, triggers "executed")
    ∷ (5, triggers "info_complete")
    ∷ (6, triggers "confirmed")
    ∷ (7, triggers "needs_approval")
    ∷ []

-- The state after the dialog, and a way to execute without a confirmation.
approval : (run (init 300 0) dialog).state ≡ waiting_approval
unfolding run init
approval = refl

abbrev retried : List (ℕ × Call String)
retried = (1, triggers "start") ∷ (2, triggers "error") ∷ (3, triggers "retry") ∷ []

unconfirmed : (run (init 300 0) retried).state ≡ executing
unfolding run init
unconfirmed = refl

late : check_timeout (run (init 300 0) dialog) 308 ≡ true
unfolding check_timeout run init
late = refl

no_time_left : get_remaining_time (run (init 300 0) dialog) 308 ≡ 0
unfolding get_remaining_time run init
no_time_left = refl

run-IsWalk_example : IsWalk (run (init 300 0) dialog)
run-IsWalk_example = run-IsWalk 300 0 dialog

run-released_example : released false (init 300 0) dialog ≡ true
unfolding under_way
run-released_example = run-released 300 0 dialog (unfold run in unfold init in refl)
