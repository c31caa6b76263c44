-- ===== src/Resilience/Reclaimer/Held.antt =====
-- src/resilience/reclaimer.py: the entries of the registry that have expired.
use ai_agent_code.Common.Dict
use ai_agent_code.Common.Dict.{Dict}
use ai_agent_code.Common.{
  same_refl, ℕ, ◌≡◌, inl, inr, refl, ap, ◌∙◌, true, false, not, none, some, List, [], ◌∷◌, arith,
  String, ◌≟◌, elem, keep, Bool-cases, string_key, nat_key,
}
use ai_agent_code.Resilience.Reclaimer.{Resource, ResourceReclaimer, expired, expired_ids, pop}
use ai_agent_code.Resilience.Reclaimer.Turns.{differs, purge}

module _ {W : Type 0} where
  -- The identifiers of a dictionary are different.
  unfoldable pub Unique : Dict String (Resource W) → Type 0
  Unique [] = Unit
  Unique ((id, r) ∷ d) = (Dict.lookup id d ≡ none) × Unique d

  -- The entries that have not expired, in their order.
  unfoldable pub live : ℕ → Dict String (Resource W) → Dict String (Resource W)
  live now d = keep (λ e. not (expired now e.1)) d

  pub absent-ids :
      (now : ℕ) (id : String) (d : Dict String (Resource W))
      → Dict.lookup id d ≡ none
      → elem id (expired_ids now d) ≡ false
  unfolding expired_ids
  absent-ids now id [] h = refl
  absent-ids now id ((j, r) ∷ d) h = ground (arith, absent-ids now id d)

  -- The registry holds these resources, of the entries that have expired.
  unfoldable pub Held : ℕ → Dict String (Resource W) → ResourceReclaimer W → Type 0
  Held now [] m = Unit
  Held now ((id, r) ∷ d) m =
      (expired now r ≡ true → Dict.lookup id m.resources ≡ some r) × Held now d m

  pub expired-ids :
      (now : ℕ) (id : String) (r : Resource W) (d : Dict String (Resource W))
      → expired now r ≡ true
      → expired_ids now ((id, r) ∷ d) ≡ id ∷ expired_ids now d
  unfolding expired_ids
  expired-ids now id r d e = rw e refl

  pub live-ids :
      (now : ℕ) (id : String) (r : Resource W) (d : Dict String (Resource W))
      → expired now r ≡ false
      → expired_ids now ((id, r) ∷ d) ≡ expired_ids now d
  unfolding expired_ids
  live-ids now id r d e = rw e refl

  -- What is held under the expired identifiers does not depend on the rest of the registry.
  pub Held-change :
      (now : ℕ) (d : Dict String (Resource W)) (m m' : ResourceReclaimer W)
      → ((j : String)
          → elem j (expired_ids now d) ≡ true
          → Dict.lookup j m'.resources ≡ Dict.lookup j m.resources)
      → Held now d m
      → Held now d m'
  unfolding Held
  Held-change now [] m m' same h = tt
  Held-change now ((id, r) ∷ d) m m' same h = (
    λ e.
        let first : elem id (expired_ids now ((id, r) ∷ d)) ≡ true =
          rw (expired-ids now id r d e) (ground (arith, string_key.same_iff id id)) in
        same id first ∙ h.0 e,
    Held-change now d m m' (λ j i. same j (later j i)) h.1,
  )
    where
      later :
          (j : String)
          → elem j (expired_ids now d) ≡ true
          → elem j (expired_ids now ((id, r) ∷ d)) ≡ true
      later j i = elim (Bool-cases (expired now r)) [
        | inl e ↦ rw (expired-ids now id r d e) (ground (arith, i))
        | inr e ↦ rw (live-ids now id r d e) i
      ]

  pub Held-pop :
      (now : ℕ) (d : Dict String (Resource W)) (id : String) (m : ResourceReclaimer W)
      → Dict.lookup id d ≡ none
      → Held now d m
      → Held now d (pop m id)
  Held-pop now d id m n h =
      Held-change now d m (pop m id)
        (λ j i.
          rw (Dict.lookup-erase, differs j id (expired_ids now d) i (absent-ids now id d n)) refl)
        h

  pub Held-self :
      (now : ℕ) (d : Dict String (Resource W)) → Unique d → Held now d (record { resources = d })
  unfolding Held Unique
  Held-self now [] u = tt
  Held-self now ((id, r) ∷ d) u = (
    λ e. ground (arith, string_key.same_iff id id),
    Held-change now d (record { resources = d }) (record { resources = (id, r) ∷ d })
        (λ j i. rw (differs j id (expired_ids now d) i (absent-ids now id d u.0)) refl)
        (Held-self now d u.1),
  )

  purge-past :
      (id : String) (r : Resource W) (ids : List String) (d : Dict String (Resource W))
      → elem id ids ≡ false
      → (purge ids (record { resources = (id, r) ∷ d })).resources
        ≡ (id, r) ∷ (purge ids (record { resources = d })).resources
  unfolding purge
  purge-past id r [] d n = refl
  purge-past id r (j ∷ ids) d n =
      let ne : (j ≟ id) ≡ false =
        ground (arith, string_key.same_iff j id, string_key.same_iff id j, n) in
      let kept : Dict.erase j ((id, r) ∷ d) ≡ (id, r) ∷ Dict.erase j d = rw ne refl in
      ap (λ x. (purge ids (record { resources = x })).resources) kept
      ∙ purge-past id r ids (Dict.erase j d) (ground (arith, n))

  -- To remove the expired identifiers leaves the entries that have not expired.
  pub purge-live :
      (now : ℕ) (d : Dict String (Resource W))
      → Unique d
      → (purge (expired_ids now d) (record { resources = d })).resources ≡ live now d
  unfolding Unique live purge
  purge-live now [] u = unfold expired_ids in refl
  purge-live now ((id, r) ∷ d) u = elim (Bool-cases (expired now r)) [
    | inl e ↦
        let rest = purge-live now d u.1 in
        let gone : (Dict.erase id ((id, r) ∷ d)) ≡ d =
          rw (same_refl id) (Dict.erase-missing id d u.0) in
        rw (expired-ids now id r d e, e)
          (ap (λ x. (purge (expired_ids now d) (record { resources = x })).resources) gone ∙ rest)
    | inr e ↦
        rw (live-ids now id r d e, e)
          (purge-past id r (expired_ids now d) d (absent-ids now id d u.0)
            ∙ ap (λ x. (id, r) ∷ x) (purge-live now d u.1))
  ]
