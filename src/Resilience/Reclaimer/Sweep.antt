-- ===== src/Resilience/Reclaimer/Sweep.antt =====
-- src/resilience/reclaimer.py: the loop of a reclamation against one with the expired entries removed.
use ai_agent_code.Common.Dict
use ai_agent_code.Common.Dict.{Dict}
use ai_agent_code.Common.{
  subst, ℕ, ◌≡◌, inl, inr, refl, sym, ap, ◌∙◌, true, false, Option, none, some, List, [], ◌∷◌,
  arith, All, String, if◌then◌else◌, elem, Bool-cases, Option-cases, string_key, nat_key,
}
use ai_agent_code.Resilience.Reclaimer.{
  Resource, ResourceReclaimer, expired, expired_ids, reclaim, Turn, registers, unregisters, works,
  act_all, work_all, pop, next_turns, later_turns,
}
use ai_agent_code.Resilience.Reclaimer.Held.{
  Unique, Held, expired-ids, live-ids, Held-change, Held-pop,
}
use ai_agent_code.Resilience.Reclaimer.Turns.{IsApart, purge, purge-act_all, lookup-act_all}

grow :
    (j : String) (ids xs : List String)
    → All (λ id. elem id ids ≡ true) xs
    → All (λ id. elem id (j ∷ ids) ≡ true) xs
grow j ids [] h = tt
grow j ids (x ∷ xs) h = (ground (arith, h.0), grow j ids xs h.1)

members : (ids : List String) → All (λ id. elem id ids ≡ true) ids
members [] = tt
members (id ∷ ids) = (ground (arith, string_key.same_iff id id), grow id ids ids (members ids))

module _ {W : Type 0} where
  -- What a reclamation does to the registry and the world, when all the expired entries have been
  -- removed at once before: the cleanups of the entries that have expired, in their order, each with
  -- the turns taken while it is awaited.
  pub sweep :
      ℕ
      → Dict String (Resource W)
      → List (List (Turn W))
      → ResourceReclaimer W
      → W
      → ResourceReclaimer W × W
  sweep now [] turns m w = (m, w)
  sweep now ((id, r) ∷ d) turns m w =
      let rest = sweep now d turns m w in
      if expired now r
      then elim r.cleanup [
        | none ↦ rest
        | some cleanup ↦
            let ts = next_turns turns in
            sweep now d (later_turns turns) (act_all m ts) (work_all ts (cleanup w))
      ]
      else rest

  -- No turn registers or unregisters one of the identifiers.
  abbrev pub Apart : List String → List (List (Turn W)) → Type 0
  Apart ids turns = All (All (IsApart ids)) turns

  later-Apart :
      (ids : List String) (turns : List (List (Turn W)))
      → Apart ids turns
      → All (IsApart ids) (next_turns turns) × Apart ids (later_turns turns)
  later-Apart ids [] a = (tt, tt)
  later-Apart ids (ts ∷ turns) a = a

  tail-IsApart :
      (id : String) (ids : List String) (t : Turn W) → IsApart (id ∷ ids) t → IsApart ids t
  unfolding IsApart
  tail-IsApart id ids (registers j kind ttl cleanup now) n = ground (arith, n)
  tail-IsApart id ids (unregisters j) n = ground (arith, n)
  tail-IsApart id ids (works f) n = tt

  tail-All :
      (id : String) (ids : List String) (ts : List (Turn W))
      → All (IsApart (id ∷ ids)) ts
      → All (IsApart ids) ts
  tail-All id ids [] n = tt
  tail-All id ids (t ∷ ts) n = (tail-IsApart id ids t n.0, tail-All id ids ts n.1)

  tail-Apart :
      (id : String) (ids : List String) (turns : List (List (Turn W)))
      → Apart (id ∷ ids) turns
      → Apart ids turns
  tail-Apart id ids [] a = tt
  tail-Apart id ids (ts ∷ turns) a = (tail-All id ids ts a.0, tail-Apart id ids turns a.1)

  -- The end of a loop that raises nothing.
  unfoldable pub finished : ResourceReclaimer W × W → ResourceReclaimer W × W × Option String
  finished (m, w) = (m, w, none)

  pub reclaim-plain :
      (id : String) (ids : List String) (turns : List (List (Turn W))) (m : ResourceReclaimer W)
      (w : W) (r : Resource W)
      → Dict.lookup id m.resources ≡ some r
      → r.cleanup ≡ none
      → reclaim (id ∷ ids) turns m w ≡ reclaim ids turns (pop m id) w
  unfolding reclaim
  reclaim-plain id ids turns m w r h c = rw (reclaim, h) (rw c refl)

  pub reclaim-cleaned :
      (id : String) (ids : List String) (turns : List (List (Turn W))) (m : ResourceReclaimer W)
      (w : W) (r : Resource W) (f : W → W)
      → Dict.lookup id m.resources ≡ some r
      → r.cleanup ≡ some f
      → reclaim (id ∷ ids) turns m w
        ≡ reclaim ids
            (later_turns turns)
            (act_all (pop m id) (next_turns turns))
            (work_all (next_turns turns) (f w))
  unfolding reclaim
  reclaim-cleaned id ids turns m w r f h c = rw (reclaim, h) (rw c refl)

  sweep-plain :
      (now : ℕ) (id : String) (r : Resource W) (d : Dict String (Resource W))
      (turns : List (List (Turn W))) (m : ResourceReclaimer W) (w : W)
      → expired now r ≡ true
      → r.cleanup ≡ none
      → sweep now ((id, r) ∷ d) turns m w ≡ sweep now d turns m w
  unfolding sweep
  sweep-plain now id r d turns m w e c = rw (sweep, e) (rw c refl)

  sweep-cleaned :
      (now : ℕ) (id : String) (r : Resource W) (d : Dict String (Resource W))
      (turns : List (List (Turn W))) (m : ResourceReclaimer W) (w : W) (f : W → W)
      → expired now r ≡ true
      → r.cleanup ≡ some f
      → sweep now ((id, r) ∷ d) turns m w
        ≡ sweep now d
            (later_turns turns)
            (act_all m (next_turns turns))
            (work_all (next_turns turns) (f w))
  unfolding sweep
  sweep-cleaned now id r d turns m w f e c = rw (sweep, e) (rw c refl)

  sweep-live :
      (now : ℕ) (id : String) (r : Resource W) (d : Dict String (Resource W))
      (turns : List (List (Turn W))) (m : ResourceReclaimer W) (w : W)
      → expired now r ≡ false
      → sweep now ((id, r) ∷ d) turns m w ≡ sweep now d turns m w
  unfolding sweep
  sweep-live now id r d turns m w e = rw (sweep, e) refl

  pub reclaim-sweep :
      (now : ℕ) (d : Dict String (Resource W)) (turns : List (List (Turn W)))
      (m : ResourceReclaimer W) (w : W)
      → Unique d
      → Held now d m
      → Apart (expired_ids now d) turns
      → reclaim (expired_ids now d) turns m w
        ≡ finished (sweep now d turns (purge (expired_ids now d) m) w)
  unfolding Unique Held expired_ids finished purge
  reclaim-sweep now [] turns m w u h a = unfold expired_ids reclaim sweep purge finished in refl
  reclaim-sweep now ((id, r) ∷ d) turns m w u h a = elim (Bool-cases (expired now r)) [
    | inl e ↦
        let ids = expired_ids now d in
        let heads = expired-ids now id r d e in
        let a' : Apart ids turns = tail-Apart id ids turns (subst (λ x. Apart x turns) heads a) in
        elim (Option-cases r.cleanup) [
          | inl c ↦ rw heads (
              reclaim-plain id ids turns m w r (h.0 e) c
              ∙ reclaim-sweep now d turns (pop m id) w u.1 (Held-pop now d id m u.0 h.1) a'
              ∙ ap finished (sym (sweep-plain now id r d turns (purge (id ∷ ids) m) w e c)))
          | inr (f, c) ↦
              let (now_apart, then_apart) = later-Apart ids turns a' in
              let ts = next_turns turns in
              let m' = act_all (pop m id) ts in
              let held =
                Held-change now d (pop m id) m'
                  (λ j i. lookup-act_all j (pop m id) ts ids i now_apart)
                  (Held-pop now d id m u.0 h.1) in
              rw heads (
                reclaim-cleaned id ids turns m w r f (h.0 e) c
                ∙ reclaim-sweep now d (later_turns turns) m' (work_all ts (f w)) u.1 held then_apart
                ∙ ap (λ x. finished (sweep now d (later_turns turns) x (work_all ts (f w))))
                    (purge-act_all ids ids (pop m id) ts (members ids) now_apart)
                ∙ ap finished (sym (sweep-cleaned now id r d turns (purge (id ∷ ids) m) w f e c)))
        ]
    | inr e ↦ rw (live-ids now id r d e) (
        reclaim-sweep now d turns m w u.1 h.1 (subst (λ x. Apart x turns) (live-ids now id r d e) a)
        ∙ ap finished (sym (sweep-live now id r d turns _ w e)))
  ]
