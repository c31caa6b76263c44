-- ===== src/Conversation/Fsm.antt =====
-- src/domain/conversation/fsm.py: `DialogFSM`, the state machine of a dialog.
-- Times are whole seconds, and the time of a call is an argument of it. A callback is a value of
-- the type `C`: `trigger` returns those that it fires, in order; what they do, exceptions included,
-- does not reach the machine.
mod Tables
mod History
mod Safety
mod Tests
use ai_agent_code.Common.Dict
use ai_agent_code.Common.Dict.{Dict}
use ai_agent_code.Common.{
  ℕ, zero, suc, ◌+◌, ◌-◌, ◌*◌, ◌≤◌, ◌<◌, min, max, ◌≡◌, ◌≢◌, ◌⊎◌, ◌↔◌, inl, inr, refl, sym, ap, ◌∙◌,
  Bool, true, false, not, ◌&&◌, ◌||◌, Option, none, some, List, [], ◌∷◌, ◌++◌, map, reverse, arith,
  String, if◌then◌else◌, leb, ltb, ◌==◌, ◌≟◌, elem, length, drop, keep, count, get_last?,
  slice_last, All, Bool-cases, Option-cases, Key, string_key, nat_key,
}

pub data DialogState : Type 0 where
  idle greeting collecting_info confirming : DialogState
  executing waiting_approval handling_error closing : DialogState

-- `TRANSITIONS`
abbrev pub transitions : DialogState → List String
transitions idle = "start" ∷ []
transitions greeting = "greeted" ∷ "skip_greeting" ∷ "error" ∷ []
transitions collecting_info = "info_complete" ∷ "timeout" ∷ "error" ∷ "cancel" ∷ []
transitions confirming = "confirmed" ∷ "rejected" ∷ "timeout" ∷ "cancel" ∷ []
transitions executing = "executed" ∷ "needs_approval" ∷ "error" ∷ "execution_failed" ∷ []
transitions waiting_approval = "approved" ∷ "rejected" ∷ "timeout" ∷ "cancel" ∷ []
transitions handling_error = "recover" ∷ "retry" ∷ "fallback" ∷ "give_up" ∷ []
transitions closing = []

-- `_TRANSITION_MAP`, the rows of each state together.
abbrev pub transition_map : DialogState → Dict String DialogState
transition_map idle = ("start", greeting) ∷ []
transition_map greeting =
    ("greeted", collecting_info)
    ∷ ("skip_greeting", collecting_info)
    ∷ ("error", handling_error)
    ∷ []
transition_map collecting_info =
    ("info_complete", confirming)
    ∷ ("timeout", closing)
    ∷ ("error", handling_error)
    ∷ ("cancel", closing)
    ∷ []
transition_map confirming =
    ("confirmed", executing)
    ∷ ("rejected", collecting_info)
    ∷ ("timeout", closing)
    ∷ ("cancel", closing)
    ∷ []
transition_map executing =
    ("executed", closing)
    ∷ ("needs_approval", waiting_approval)
    ∷ ("error", handling_error)
    ∷ ("execution_failed", handling_error)
    ∷ []
transition_map waiting_approval =
    ("approved", executing)
    ∷ ("rejected", closing)
    ∷ ("timeout", closing)
    ∷ ("cancel", closing)
    ∷ []
transition_map handling_error =
    ("recover", collecting_info)
    ∷ ("retry", executing)
    ∷ ("fallback", closing)
    ∷ ("give_up", closing)
    ∷ []
transition_map closing = []

pub record DialogFsm (C : Type 0) : Type 0 where
  pub state : DialogState
  pub state_entered_at : ℕ
  pub timeout_seconds : ℕ
  pub transition_count : ℕ
  pub state_history : List (DialogState × ℕ)
  pub callbacks : Dict String (List C)

-- What `trigger` returns or raises; with the callbacks fired, and the states they are told.
pub data Triggered (C : Type 0) : Type 0 where
  refused value_error : Triggered C
  moved : DialogState → DialogState → List C → Triggered C

timeout_eligible : DialogState → Bool
timeout_eligible collecting_info = true
timeout_eligible confirming = true
timeout_eligible waiting_approval = true
timeout_eligible idle = false
timeout_eligible greeting = false
timeout_eligible executing = false
timeout_eligible handling_error = false
timeout_eligible closing = false

module _ {C : Type 0} where
  -- `__init__`
  pub init : ℕ → ℕ → DialogFsm C
  init timeout now = record {
    state = idle;
    state_entered_at = now;
    timeout_seconds = timeout;
    transition_count = 0;
    state_history = (idle, now) ∷ [];
    callbacks = [];
  }

  pub can_transition : DialogFsm C → String → Bool
  can_transition f event = elem event (transitions f.state)

  -- `self._on_transition_callbacks.get(event, [])`
  pub registered : DialogFsm C → String → List C
  registered f event = elim (Dict.lookup event f.callbacks) [ none ↦ [] | some cs ↦ cs ]

  pub trigger : DialogFsm C → String → ℕ → DialogFsm C × Triggered C
  unfolding can_transition registered
  trigger f event now =
      if not (can_transition f event)
      then (f, refused)
      else elim (Dict.lookup event (transition_map f.state)) [
        | none ↦ (f, value_error)
        | some next ↦ (
          record f {
            state = next;
            state_entered_at = now;
            transition_count = f.transition_count + 1;
            state_history = f.state_history ++ (next, now) ∷ [];
          },
          moved f.state next (registered f event),
        )
      ]

  pub check_timeout : DialogFsm C → ℕ → Bool
  unfolding timeout_eligible
  check_timeout f now = timeout_eligible f.state && ltb (f.state_entered_at + f.timeout_seconds) now

  pub get_elapsed_time : DialogFsm C → ℕ → ℕ
  get_elapsed_time f now = now - f.state_entered_at

  -- `max(0.0, ...)` is the subtraction that stops at 0.
  pub get_remaining_time : DialogFsm C → ℕ → ℕ
  unfolding get_elapsed_time
  get_remaining_time f now = f.timeout_seconds - get_elapsed_time f now

  pub on_transition : DialogFsm C → String → C → DialogFsm C
  unfolding registered
  on_transition f event cb = record f {
    callbacks = Dict.insert event (registered f event ++ cb ∷ []) f.callbacks;
  }

  pub reset : DialogFsm C → ℕ → DialogFsm C
  reset f now = record f {
    state = idle;
    state_entered_at = now;
    transition_count = 0;
    state_history = (idle, now) ∷ [];
  }

-- A call that changes the machine.
pub data Call (C : Type 0) : Type 0 where
  triggers : String → Call C
  registers : String → C → Call C
  resets : Call C

module _ {C : Type 0} where
  pub step : DialogFsm C → ℕ × Call C → DialogFsm C
  unfolding trigger on_transition reset
  step f (now, triggers event) = (trigger f event now).0
  step f (now, registers event cb) = on_transition f event cb
  step f (now, resets) = reset f now

  pub run : DialogFsm C → List (ℕ × Call C) → DialogFsm C
  unfolding step
  run f [] = f
  run f (c ∷ cs) = run (step f c) cs
