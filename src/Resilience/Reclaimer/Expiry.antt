-- ===== src/Resilience/Reclaimer/Expiry.antt =====
-- src/resilience/reclaimer.py: what a reclamation removes and runs, whatever happens while it waits.
use ai_agent_code.Common.Dict
use ai_agent_code.Common.Dict.{Dict}
use ai_agent_code.Common.{
  ℕ, ◌≡◌, inl, inr, refl, ap, ◌∙◌, none, some, List, [], ◌∷◌, arith, String, ◌≟◌, Bool-cases,
  Option-cases, string_key, nat_key,
}
use ai_agent_code.Resilience.Reclaimer.{
  Resource, ResourceReclaimer, init, register, unregister, expired_ids, reclaim, Turn, registers,
  unregisters, works, act, act_all, work_all, pop, next_turns, later_turns, reclaimed,
  reclaim_expired,
}
use ai_agent_code.Resilience.Reclaimer.Held.{Unique, live, Held-self, purge-live}
use ai_agent_code.Resilience.Reclaimer.Sweep.{
  sweep, Apart, finished, reclaim-plain, reclaim-cleaned, reclaim-sweep,
}

-- A call that changes the registry: a turn, or a reclamation with the turns while it waits.
pub data Call (W : Type 0) : Type 0 where
  takes : Turn W → Call W
  reclaims : ℕ → List (List (Turn W)) → Call W

module _ {W : Type 0} where
  insert-Unique :
      (id : String) (r : Resource W) (d : Dict String (Resource W))
      → Unique d
      → Unique (Dict.insert id r d)
  unfolding Unique
  insert-Unique id r [] u = (refl, tt)
  insert-Unique id r ((j, s) ∷ d) u = elim (Bool-cases (id ≟ j)) [
    | inl e ↦ rw e (ground (arith, string_key.same_iff id j, u.0), u.1)
    | inr e ↦ rw e (
      ground (
        arith,
        Dict.lookup-insert j id r d,
        string_key.same_iff j id,
        string_key.same_iff id j,
        u.0,
      ),
      insert-Unique id r d u.1,
    )
  ]

  erase-Unique : (id : String) (d : Dict String (Resource W)) → Unique d → Unique (Dict.erase id d)
  unfolding Unique
  erase-Unique id [] u = tt
  erase-Unique id ((j, s) ∷ d) u = elim (Bool-cases (id ≟ j)) [
    | inl e ↦ rw e (erase-Unique id d u.1)
    | inr e ↦ rw e (grind (arith, Dict.lookup-erase j id d, u.0), erase-Unique id d u.1)
  ]

  act-Unique :
      (m : ResourceReclaimer W) (t : Turn W) → Unique m.resources → Unique (act m t).resources
  unfolding act register unregister
  act-Unique m (registers id kind ttl cleanup now) u = insert-Unique id _ m.resources u
  act-Unique m (unregisters id) u = erase-Unique id m.resources u
  act-Unique m (works f) u = u

  act_all-Unique :
      (m : ResourceReclaimer W) (ts : List (Turn W))
      → Unique m.resources
      → Unique (act_all m ts).resources
  unfolding act_all
  act_all-Unique m [] u = u
  act_all-Unique m (t ∷ ts) u = act_all-Unique (act m t) ts (act-Unique m t u)

  reclaim-missing :
      (id : String) (ids : List String) (turns : List (List (Turn W))) (m : ResourceReclaimer W)
      (w : W)
      → Dict.lookup id m.resources ≡ none
      → reclaim (id ∷ ids) turns m w ≡ (m, w, some id)
  unfolding reclaim
  reclaim-missing id ids turns m w h = rw (reclaim, h) refl

  reclaim-Unique :
      (ids : List String) (turns : List (List (Turn W))) (m : ResourceReclaimer W) (w : W)
      → Unique m.resources
      → Unique (reclaim ids turns m w).0.resources
  reclaim-Unique [] turns m w u = unfold reclaim in u
  reclaim-Unique (id ∷ ids) turns m w u = elim (Option-cases (Dict.lookup id m.resources)) [
    | inl h ↦ rw (reclaim-missing id ids turns m w h) u
    | inr (r, h) ↦
        let u' = erase-Unique id m.resources u in
        elim (Option-cases r.cleanup) [
          | inl c ↦
              rw (reclaim-plain id ids turns m w r h c) (reclaim-Unique ids turns (pop m id) w u')
          | inr (f, c) ↦ rw (reclaim-cleaned id ids turns m w r f h c) (
              reclaim-Unique ids (later_turns turns) _ _
                (act_all-Unique (pop m id) (next_turns turns) u'))
        ]
  ]

  -- The registry and the world after some calls; a `KeyError` ends only the reclamation it is raised
  -- in.
  unfoldable pub run : ResourceReclaimer W → W → List (Call W) → ResourceReclaimer W × W
  run m w [] = (m, w)
  run m w (takes t ∷ cs) = run (act m t) (work_all (t ∷ []) w) cs
  run m w (reclaims now turns ∷ cs) =
      let (m', w', r) = reclaim_expired m now turns w in run m' w' cs

  run-Unique :
      (m : ResourceReclaimer W) (w : W) (cs : List (Call W))
      → Unique m.resources
      → Unique (run m w cs).0.resources
  unfolding run reclaim_expired
  run-Unique m w [] u = u
  run-Unique m w (takes t ∷ cs) u = run-Unique (act m t) _ cs (act-Unique m t u)
  run-Unique m w (reclaims now turns ∷ cs) u =
      run-Unique _ _ cs (reclaim-Unique (expired_ids now m.resources) turns m w u)

  reclaim_expired-finished :
      (m : ResourceReclaimer W) (now : ℕ) (turns : List (List (Turn W))) (w : W)
      (s : ResourceReclaimer W × W)
      → reclaim (expired_ids now m.resources) turns m w ≡ finished s
      → reclaim_expired m now turns w ≡ (s.0, s.1, reclaimed (expired_ids now m.resources))
  unfolding reclaim_expired finished
  reclaim_expired-finished m now turns w s e = rw (reclaim_expired, e) refl

init-Unique : (W : Type 0) → Unique {W = W} init.resources
unfolding init Unique
init-Unique W = tt

-- After any calls, a reclamation raises no `KeyError` when nothing that happens while it awaits the
-- cleanups registers or unregisters one of the expired identifiers. It then removes the entries that
-- have expired and no others, runs each of their cleanups once, in order, and returns their
-- identifiers; all else that happens meanwhile to the registry and the world is as if the expired
-- entries had been gone at the start.
pub reclaim_expired-Apart :
    {W : Type 0} (w : W) (cs : List (Call W)) (now : ℕ) (turns : List (List (Turn W)))
    → Apart (expired_ids now (run init w cs).0.resources) turns
    → let (m, w') = run init w cs in
      let live_only : ResourceReclaimer W = record { resources = live now m.resources } in
      let (after, w'') = sweep now m.resources turns live_only w' in
      reclaim_expired m now turns w' ≡ (after, w'', reclaimed (expired_ids now m.resources))
reclaim_expired-Apart w cs now turns a =
    let (m, w') = run init w cs in
    let u = run-Unique init w cs (init-Unique _) in
    reclaim_expired-finished m now turns w' _ (
      reclaim-sweep now m.resources turns m w' u (Held-self now m.resources u) a
      ∙ ap (λ d. finished (sweep now m.resources turns (record { resources = d }) w'))
          (purge-live now m.resources u))
