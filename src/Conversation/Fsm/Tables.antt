-- ===== src/Conversation/Fsm/Tables.antt =====
-- src/domain/conversation/fsm.py: the two tables of `DialogFSM` against each other.
use ai_agent_code.Common.Dict
use ai_agent_code.Common.{
  ℕ, ◌+◌, ◌≡◌, Option, none, some, [], ◌∷◌, ◌++◌, arith, String, elem, string_key, nat_key,
}
use ai_agent_code.Conversation.Fsm.{
  closing, handling_error, waiting_approval, executing, confirming, collecting_info, greeting, idle,
  DialogState, transitions, transition_map, DialogFsm, Triggered, refused, moved, trigger,
  can_transition, registered,
}

tables_agree :
    (s : DialogState) (event : String)
    → elem event (transitions s) ≡ Dict.contains event (transition_map s)
tables_agree idle event = ground arith
tables_agree greeting event = ground arith
tables_agree collecting_info event = ground arith
tables_agree confirming event = ground arith
tables_agree executing event = ground arith
tables_agree waiting_approval event = ground arith
tables_agree handling_error event = ground arith
tables_agree closing event = ground arith

module _ {C : Type 0} where
  -- The machine that the map alone describes: the entry of an event, if there is one, is the next
  -- state, and it is recorded with its time.
  unfoldable pub follow : DialogFsm C → String → ℕ → Option DialogState → DialogFsm C × Triggered C
  follow f event now none = (f, refused)
  follow f event now (some s) = (
    record f {
      state = s;
      state_entered_at = now;
      transition_count = f.transition_count + 1;
      state_history = f.state_history ++ (s, now) ∷ [];
    },
    moved f.state s (registered f event),
  )

  -- An event is accepted exactly when the transition map has an entry for it, and then the machine
  -- moves to that entry's state, records it and fires the event's callbacks; otherwise nothing
  -- changes. The configuration error is never raised.
  pub trigger-follow :
      (f : DialogFsm C) (event : String) (now : ℕ)
      → trigger f event now ≡ follow f event now (Dict.lookup event (transition_map f.state))
  unfolding trigger can_transition follow
  trigger-follow f event now = ground (arith, tables_agree f.state event)
