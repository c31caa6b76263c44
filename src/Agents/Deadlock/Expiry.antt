-- ===== src/Agents/Deadlock/Expiry.antt =====
-- src/agents/communication/deadlock.py: `_clean_expired` leaves no dependency that has expired.
use ai_agent_code.Common.Dict
use ai_agent_code.Common.Dict.{Dict}
use ai_agent_code.Common.{
  subst, ℕ, ◌≡◌, ◌⊎◌, inl, inr, refl, sym, true, false, List, [], ◌∷◌, arith, String, ◌≟◌, elem,
  All, Bool-cases, Option-cases, string_key, nat_key,
}
use ai_agent_code.Agents.Deadlock.{
  DependencyEdge, DeadlockDetector, drop_dependency, is_expired, expired_ids, drop_all,
  clean_expired,
}

drop_dependency-erase :
    (d : DeadlockDetector) (id : String)
    → (drop_dependency d id).dependencies ≡ Dict.erase id d.dependencies
unfolding drop_dependency
drop_dependency-erase d id = elim (Option-cases (Dict.lookup id d.dependencies)) [
  | inl e ↦ rw (drop_dependency, e) (sym (Dict.erase-missing id d.dependencies e))
  | inr (dep, e) ↦ rw (drop_dependency, e) refl
]

-- A dependency is not expired.
unfoldable pub AreLive : ℕ → Dict String DependencyEdge → Type 0
AreLive now deps = All (λ (e : String × DependencyEdge). is_expired now e.1 ≡ false) deps

-- It is not expired, or has one of some identifiers.
AreListed : ℕ → List String → Dict String DependencyEdge → Type 0
AreListed now ids deps =
    All (λ (e : String × DependencyEdge). (is_expired now e.1 ≡ false) ⊎ (elem e.0 ids ≡ true)) deps

more-AreListed :
    (now : ℕ) (id : String) (ids : List String) (deps : Dict String DependencyEdge)
    → AreListed now ids deps
    → AreListed now (id ∷ ids) deps
unfolding AreListed
more-AreListed now id ids [] a = tt
more-AreListed now id ids (e ∷ deps) (h, a) =
    (elim h [ inl l ↦ inl l | inr l ↦ inr (ground (arith, l)) ], more-AreListed now id ids deps a)

expired_ids-hit :
    (now : ℕ) (id : String) (dep : DependencyEdge) (deps : Dict String DependencyEdge)
    → is_expired now dep ≡ true
    → expired_ids now ((id, dep) ∷ deps) ≡ id ∷ expired_ids now deps
unfolding expired_ids
expired_ids-hit now id dep deps b = rw b refl

expired_ids-miss :
    (now : ℕ) (id : String) (dep : DependencyEdge) (deps : Dict String DependencyEdge)
    → is_expired now dep ≡ false
    → expired_ids now ((id, dep) ∷ deps) ≡ expired_ids now deps
unfolding expired_ids
expired_ids-miss now id dep deps b = rw b refl

expired_ids-AreListed :
    (now : ℕ) (deps : Dict String DependencyEdge) → AreListed now (expired_ids now deps) deps
unfolding AreListed
expired_ids-AreListed now [] = tt
expired_ids-AreListed now ((id, dep) ∷ deps) =
    let rest = expired_ids-AreListed now deps in
    let P : List String → Type 0 = λ ids. AreListed now ids ((id, dep) ∷ deps) in
    elim (Bool-cases (is_expired now dep)) [
      | inl b ↦ subst P (sym (expired_ids-hit now id dep deps b)) (
        inr (ground (arith, string_key.same_iff id id)),
        more-AreListed now id (expired_ids now deps) deps rest,
      )
      | inr b ↦ subst P (sym (expired_ids-miss now id dep deps b)) (inl b, rest)
    ]

erase-AreListed :
    (now : ℕ) (id : String) (ids : List String) (deps : Dict String DependencyEdge)
    → AreListed now (id ∷ ids) deps
    → AreListed now ids (Dict.erase id deps)
unfolding AreListed
erase-AreListed now id ids [] a = tt
erase-AreListed now id ids ((j, e) ∷ deps) (h, a) = elim (Bool-cases (id ≟ j)) [
  | inl b ↦ rw b (erase-AreListed now id ids deps a)
  | inr b ↦ rw b (
    elim h [
      | inl l ↦ inl l
      | inr l ↦ inr (ground (arith, l, b, string_key.same_iff id j, string_key.same_iff j id))
    ],
    erase-AreListed now id ids deps a,
  )
]

drop_all-AreListed :
    (now : ℕ) (d : DeadlockDetector) (ids : List String)
    → AreListed now ids d.dependencies
    → AreListed now [] (drop_all d ids).dependencies
unfolding drop_all
drop_all-AreListed now d [] a = a
drop_all-AreListed now d (id ∷ ids) a = drop_all-AreListed now (drop_dependency d id) ids (
    subst (AreListed now ids) (sym (drop_dependency-erase d id))
      (erase-AreListed now id ids d.dependencies a))

none-AreLive :
    (now : ℕ) (deps : Dict String DependencyEdge) → AreListed now [] deps → AreLive now deps
unfolding AreListed AreLive
none-AreLive now [] a = tt
none-AreLive now (e ∷ deps) (h, a) =
    (elim h [ inl l ↦ l | inr l ↦ absurd (ground (arith, l)) ], none-AreLive now deps a)

pub clean_expired-AreLive :
    (d : DeadlockDetector) (now : ℕ) → AreLive now (clean_expired d now).dependencies
unfolding clean_expired
clean_expired-AreLive d now =
    none-AreLive now (drop_all d (expired_ids now d.dependencies)).dependencies (
      drop_all-AreListed now d (expired_ids now d.dependencies)
        (expired_ids-AreListed now d.dependencies))
