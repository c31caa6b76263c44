-- ===== src/Conversation/Fsm/Safety.antt =====
-- src/domain/conversation/fsm.py: which events a dialog needs before it executes.
use ai_agent_code.Common.Dict
use ai_agent_code.Common.{
  ℕ, ◌≡◌, refl, Bool, true, false, ◌&&◌, ◌||◌, Option, none, some, List, [], ◌∷◌, arith, String,
  elem, string_key, nat_key,
}
use ai_agent_code.Conversation.Fsm.{
  DialogState, idle, greeting, collecting_info, confirming, executing, waiting_approval,
  handling_error, closing, transition_map, DialogFsm, Call, triggers, registers, resets, init,
  on_transition, reset, step, run,
}
use ai_agent_code.Conversation.Fsm.Tables.{follow, trigger-follow}

-- The action runs, or waits for an approval.
unfoldable pub under_way : DialogState → Bool
under_way executing = true
under_way waiting_approval = true
under_way idle = false
under_way greeting = false
under_way collecting_info = false
under_way confirming = false
under_way handling_error = false
under_way closing = false

-- The user's confirmation, or a retry out of an error.
unfoldable pub releases : String → Bool
releases event = elem event ("confirmed" ∷ "retry" ∷ [])

-- Whether such an event was accepted since the start or the last reset.
pub released : {C : Type 0} → Bool → DialogFsm C → List (ℕ × Call C) → Bool
released r f [] = r
released r f ((now, triggers event) ∷ cs) =
    released (r || (releases event && Dict.contains event (transition_map f.state)))
      (step f (now, triggers event)) cs
released r f ((now, registers event cb) ∷ cs) = released r (step f (now, registers event cb)) cs
released r f ((now, resets) ∷ cs) = released false (step f (now, resets)) cs

under_way-next :
    (s t : DialogState) (event : String)
    → Dict.lookup event (transition_map s) ≡ some t
    → under_way t ≡ true
    → (under_way s || releases event) ≡ true
unfolding under_way releases
under_way-next idle t event h e = ground arith
under_way-next greeting t event h e = ground arith
under_way-next collecting_info t event h e = ground arith
under_way-next confirming t event h e = ground arith
under_way-next executing t event h e = refl
under_way-next waiting_approval t event h e = refl
under_way-next handling_error t event h e = ground arith
under_way-next closing t event h e = ground arith

-- The machine runs the action only if it has been released.
Guarded : {C : Type 0} → Bool → DialogFsm C → Type 0
Guarded r f = under_way f.state ≡ true → r ≡ true

module _ {C : Type 0} where
  follow-Guarded :
      (r : Bool) (f : DialogFsm C) (event : String) (now : ℕ) (o : Option DialogState)
      → Dict.lookup event (transition_map f.state) ≡ o
      → Guarded r f
      → Guarded
          (r || (releases event && Dict.contains event (transition_map f.state)))
          (follow f event now o).0
  unfolding follow Guarded
  follow-Guarded r f event now none h g = ground arith
  follow-Guarded r f event now (some s) h g =
      λ e. let n = under_way-next f.state s event h e in ground arith

  run-Guarded :
      (r : Bool) (f : DialogFsm C) (cs : List (ℕ × Call C))
      → Guarded r f
      → Guarded (released r f cs) (run f cs)
  unfolding run released
  run-Guarded r f [] g = g
  run-Guarded r f ((now, triggers event) ∷ cs) g =
      run-Guarded _ _ cs
        (rw (step, trigger-follow f event now) (follow-Guarded r f event now _ refl g))
  run-Guarded r f ((now, registers event cb) ∷ cs) g =
      run-Guarded r _ cs (unfold step on_transition Guarded in g)
  run-Guarded r f ((now, resets) ∷ cs) g =
      run-Guarded false _ cs (unfold step reset Guarded under_way in λ e. cc)

  -- A machine executes its action, or waits for its approval, only if the user's confirmation or a
  -- retry out of an error has been accepted since the start or the last reset.
  pub run-released :
      (timeout now : ℕ) (cs : List (ℕ × Call C))
      → let f = init {C = C} timeout now in
        under_way (run f cs).state ≡ true → released false f cs ≡ true
  unfolding init
  run-released timeout now cs =
      unfold Guarded in
      run-Guarded false (init timeout now) cs (unfold Guarded under_way in λ e. cc)
