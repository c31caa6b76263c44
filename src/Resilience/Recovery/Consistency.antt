-- ===== src/Resilience/Recovery/Consistency.antt =====
-- src/resilience/recovery.py: a run is resumed only from a checkpoint that passes every check.
use ai_agent_code.Common.{
  ◌≡◌, ◌↔◌, inl, inr, refl, sym, true, not, some, List, [], ◌∷◌, ◌++◌, map, arith, String, length,
  keep, All, Bool-cases, List-cases, string_key, nat_key,
}
use mathlib.Core.List.{append-nil, append_assoc}
use ai_agent_code.Resilience.Recovery.{Checkpoint, Check, run_checks, validate, recover}

-- The issues that a list of checks finds.
pub issues_of : List Check → Checkpoint → List String
issues_of checks c =
    map (λ (check : Check). (check c).1) (keep (λ (check : Check). not (check c).0) checks)

-- Every check passes.
pub Passes : List Check → Checkpoint → Type 0
Passes checks c = All (λ (check : Check). (check c).0 ≡ true) checks

run_checks-issues_of :
    (checks : List Check) (c : Checkpoint) (issues : List String)
    → run_checks checks c issues ≡ issues ++ issues_of checks c
unfolding run_checks issues_of
run_checks-issues_of [] c issues = sym (append-nil issues)
run_checks-issues_of (check ∷ checks) c issues = elim (Bool-cases (check c).0) [
  | inl e ↦ rw e (run_checks-issues_of checks c issues)
  | inr e ↦
      rw (e, run_checks-issues_of checks c (issues ++ (check c).1 ∷ []))
        (append_assoc issues ((check c).1 ∷ []) (issues_of checks c))
]

Passes-issues_of :
    (checks : List Check) (c : Checkpoint) → (issues_of checks c ≡ []) ↔ Passes checks c
unfolding issues_of Passes
Passes-issues_of [] c = (λ e. tt, λ p. refl)
Passes-issues_of (check ∷ checks) c = elim (Bool-cases (check c).0) [
  | inl e ↦
      rw e (λ n. (refl, (Passes-issues_of checks c).0 n), λ p. (Passes-issues_of checks c).1 p.1)
  | inr e ↦ rw e (λ n. absurd (cc), λ p. absurd (cc))
]

validate-issues_of :
    (checks : List Check) (c : Checkpoint) → (validate checks c).issues ≡ issues_of checks c
unfolding validate
validate-issues_of checks c = run_checks-issues_of checks c []

ok-Passes :
    (checks : List Check) (c : Checkpoint) → ((validate checks c).ok ≡ true) ↔ Passes checks c
unfolding validate
ok-Passes checks c =
    let e : run_checks checks c [] ≡ issues_of checks c = run_checks-issues_of checks c [] in
    let p = Passes-issues_of checks c in
    elim (List-cases (issues_of checks c)) [
      | inl n ↦ rw (e, n) (λ r. p.0 n, λ r. refl)
      | inr (x, xs, n) ↦ (
        λ r.
            absurd
              (let f : length (issues_of checks c) ≡ 0 = rw (sym e) (ground arith) in ground arith),
        λ r. absurd (let q = p.1 r in cc),
      )
    ]

-- The run is resumed, once, if every check passes, and then there is no issue; if some check fails
-- the world is left alone. Either way the report lists the issues of the checks that fail, in
-- their order.
pub recover-consistent :
    {W : Type 0} (checks : List Check) (c : Checkpoint) (resume : Checkpoint → W → W) (w : W)
    → let (w', result) = recover checks c (some resume) w in
      ((result.recovered ≡ true) ↔ Passes checks c)
      × (result.report.issues ≡ issues_of checks c)
      × (Passes checks c → w' ≡ resume c w)
      × (¬ (Passes checks c) → w' ≡ w)
unfolding recover
recover-consistent checks c resume w = elim (Bool-cases (validate checks c).ok) [
  | inl e ↦
      let p = (ok-Passes checks c).0 e in
      rw e ((λ _. p, λ _. refl), validate-issues_of checks c, λ _. refl, λ n. absurd (n p))
  | inr e ↦
      let n : ¬ (Passes checks c) = λ p. absurd (let q = (ok-Passes checks c).1 p in cc) in
      rw e (
        (λ r. absurd (cc), λ p. absurd (n p)),
        validate-issues_of checks c,
        λ p. absurd (n p),
        λ _. refl,
      )
]
