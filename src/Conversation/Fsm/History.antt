-- ===== src/Conversation/Fsm/History.antt =====
-- src/domain/conversation/fsm.py: what the history and the state of a machine say of its run.
use ai_agent_code.Common.Dict
use ai_agent_code.Common.{
  get_last?-append, length-append, subst, ℕ, ◌+◌, ◌≡◌, refl, sym, Option, none, some, List, [], ◌∷◌,
  ◌++◌, arith, String, length, get_last?, string_key, nat_key,
}
use ai_agent_code.Conversation.Fsm.{
  DialogState, transition_map, DialogFsm, Call, triggers, registers, resets, init, on_transition,
  reset, step, run,
}
use ai_agent_code.Conversation.Fsm.Tables.{follow, trigger-follow}

-- One state follows another by some event of the map.
pub Edge : DialogState → DialogState → Type 0
Edge s t = (event : String) × (Dict.lookup event (transition_map s) ≡ some t)

-- Each entry of a history follows the one before it.
pub Linked : List (DialogState × ℕ) → Type 0
Linked [] = Unit
Linked (e ∷ []) = Unit
Linked (e ∷ e' ∷ es) = Edge e.0 e'.0 × Linked (e' ∷ es)

pub record IsWalk {C : Type 0} (f : DialogFsm C) : Type 0 where
  pub linked : Linked f.state_history
  pub counted : length f.state_history ≡ f.transition_count + 1
  pub last : get_last? f.state_history ≡ some (f.state, f.state_entered_at)

Linked-snoc :
    (es : List (DialogState × ℕ)) (e e' : DialogState × ℕ)
    → Linked es
    → get_last? es ≡ some e
    → Edge e.0 e'.0
    → Linked (es ++ e' ∷ [])
unfolding Linked
Linked-snoc [] e e' l h g = tt
Linked-snoc (x ∷ []) e e' l h g =
    let same : x ≡ e = cc in (subst (λ (y : DialogState × ℕ). Edge y.0 e'.0) (sym same) g, tt)
Linked-snoc (x ∷ y ∷ es) e e' l h g = (l.0, Linked-snoc (y ∷ es) e e' l.1 h g)

module _ {C : Type 0} where
  follow-IsWalk :
      (f : DialogFsm C) (event : String) (now : ℕ) (o : Option DialogState)
      → Dict.lookup event (transition_map f.state) ≡ o
      → IsWalk f
      → IsWalk (follow f event now o).0
  unfolding follow Edge
  follow-IsWalk f event now none h v = v
  follow-IsWalk f event now (some s) h v = record {
    linked =
        Linked-snoc f.state_history (f.state, f.state_entered_at) (s, now) v.linked v.last
          (event, h);
    counted = omega (arith, v.counted, length-append f.state_history ((s, now) ∷ []));
    last = get_last?-append f.state_history (s, now);
  }

  step-IsWalk : (f : DialogFsm C) (c : ℕ × Call C) → IsWalk f → IsWalk (step f c)
  unfolding step on_transition reset
  step-IsWalk f (now, triggers event) v =
      rw (step, trigger-follow f event now) (follow-IsWalk f event now _ refl v)
  step-IsWalk f (now, registers event cb) v = record {
    linked = v.linked;
    counted = v.counted;
    last = v.last;
  }
  step-IsWalk f (now, resets) v = record {
    linked = unfold Linked in tt;
    counted = refl;
    last = refl;
  }

  run_keeps : (f : DialogFsm C) (cs : List (ℕ × Call C)) → IsWalk f → IsWalk (run f cs)
  unfolding run
  run_keeps f [] v = v
  run_keeps f (c ∷ cs) v = run_keeps (step f c) cs (step-IsWalk f c v)

-- After any calls, the history of a machine is a walk through the transition map that ends in its
-- state, at the time it was entered, and is one entry longer than its count of transitions.
pub run-IsWalk :
    {C : Type 0} (timeout now : ℕ) (cs : List (ℕ × Call C))
    → IsWalk (run (init {C = C} timeout now) cs)
unfolding init
run-IsWalk timeout now cs =
    run_keeps (init timeout now) cs
      (record { linked = unfold Linked in tt; counted = refl; last = refl })
