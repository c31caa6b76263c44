-- ===== src/Agents/Safety/Loops.antt =====
-- src/agents/safety.py: the loops that a guard detects.
use ai_agent_code.Common.{
  ℕ, ◌*◌, ◌≤◌, ◌<◌, ◌≡◌, ◌≢◌, ◌⊎◌, ◌↔◌, inl, inr, refl, Bool, true, false, List, [], ◌∷◌, ◌++◌, map,
  arith, String, if◌then◌else◌, leb, ltb, length, drop, take, slice_last, Bool-cases, string_key,
  nat_key,
}
use ai_agent_code.Agents.Safety.{
  SafetyGuard, one_value, same_list, Loop, no_loop, repeated, alternating, find_loop,
  record_violation, detect_loop,
}
use ai_agent_code.Agents.Safety.Patterns.{
  Repeats, Alternates, one_value-Repeats, same_list-Alternates, Repeats-le, Alternates-le,
  length-map, window,
}

Loop-cases : (l : Loop) → (l ≡ no_loop) ⊎ (l ≡ repeated) ⊎ (l ≡ alternating)
Loop-cases no_loop = inl refl
Loop-cases repeated = inr (inl refl)
Loop-cases alternating = inr (inr refl)

module _ (clip : String → String) where
  -- The two tests of `find_loop`, over the clipped actions.
  repeats_test : ℕ → List String → Bool
  repeats_test n history = one_value (map clip (slice_last n history))

  alternates_test : ℕ → List String → Bool
  alternates_test n history =
      let pattern = map clip (slice_last (n * 2) history) in
      same_list (take n pattern) (drop n pattern)

  repeats_test-Repeats :
      (n : ℕ) (history : List String)
      → 0 < n
      → n ≤ length history
      → (repeats_test n history ≡ true) ↔ Repeats n (map clip history)
  unfolding repeats_test
  repeats_test-Repeats n history h le =
      let len = length-map clip history in
      rw (window clip n history h) (one_value-Repeats n (map clip history) h (omega arith))

  alternates_test-Alternates :
      (n : ℕ) (history : List String)
      → 0 < n
      → n * 2 ≤ length history
      → (alternates_test n history ≡ true) ↔ Alternates n (map clip history)
  unfolding alternates_test
  alternates_test-Alternates n history h le =
      let len = length-map clip history in
      rw (window clip (n * 2) history (omega arith))
        (same_list-Alternates n (map clip history) (omega arith))

  find_loop_lem :
      (n : ℕ) (history : List String)
      → find_loop clip n history ≡ (
          if ltb (length history) n
          then no_loop
          else if repeats_test n history
          then repeated
          else if leb (n * 2) (length history)
          then (if alternates_test n history then alternating else no_loop)
          else no_loop)
  unfolding find_loop repeats_test alternates_test
  find_loop_lem n history = refl

  find_loop-detects :
      (n : ℕ) (history : List String)
      → 0 < n
      → let c = map clip history in
        (find_loop clip n history ≢ no_loop) ↔ (Repeats n c ⊎ Alternates n c)
  find_loop-detects n history h =
      let c = map clip history in
      let len : length c ≡ length history = length-map clip history in
      elim (Bool-cases (ltb (length history) n)) [
        | inl a ↦
            rw (find_loop_lem n history, a)
              (
                λ ne. absurd (ne refl),
                λ d. absurd (elim d [
                  | inl r ↦ let le = Repeats-le n c r in ground arith
                  | inr r ↦ let le = Alternates-le n c r in ground arith
                ]),
              )
        | inr a ↦
            let iff = repeats_test-Repeats n history h (ground arith) in
            elim (Bool-cases (repeats_test n history)) [
              | inl b ↦ rw (find_loop_lem n history, a, b) (λ _. inl (iff.0 b), λ _ e. absurd (cc))
              | inr b ↦
                  let no_repeat : Repeats n c → ⊥ = λ r. absurd (let q = iff.1 r in cc) in
                  elim (Bool-cases (leb (n * 2) (length history))) [
                    | inl l ↦
                        let iff' = alternates_test-Alternates n history h (ground arith) in
                        elim (Bool-cases (alternates_test n history)) [
                          | inl t ↦
                              rw (find_loop_lem n history, a, b, l, t)
                                (λ _. inr (iff'.0 t), λ _ e. absurd (cc))
                          | inr t ↦
                              rw (find_loop_lem n history, a, b, l, t)
                                (
                                  λ ne. absurd (ne refl),
                                  λ d. absurd (elim d [
                                    | inl r ↦ no_repeat r
                                    | inr r ↦ absurd (let q = iff'.1 r in cc)
                                  ]),
                                )
                        ]
                    | inr l ↦
                        rw (find_loop_lem n history, a, b, l)
                          (
                            λ ne. absurd (ne refl),
                            λ d. absurd (elim d [
                              | inl r ↦ no_repeat r
                              | inr r ↦ let le = Alternates-le n c r in ground arith
                            ]),
                          )
                  ]
            ]
      ]

  detect_loop-cases :
      (g : SafetyGuard) (history : List String)
      → ((find_loop clip g.loop_threshold history ≡ no_loop)
          × ((detect_loop clip g history).1 ≡ true)
          × ((detect_loop clip g history).0.violations ≡ g.violations))
        ⊎ ((find_loop clip g.loop_threshold history ≢ no_loop)
            × ((detect_loop clip g history).1 ≡ false)
            × ((detect_loop clip g history).0.violations ≡ g.violations ++ "loop_detected" ∷ []))
  unfolding detect_loop record_violation
  detect_loop-cases g history = elim (Loop-cases (find_loop clip g.loop_threshold history)) [
    | inl e ↦ inl (e, rw (detect_loop, e) refl, rw (detect_loop, e) refl)
    | inr (inl e) ↦ inr (λ n. absurd (cc), rw (detect_loop, e) refl, rw (detect_loop, e) refl)
    | inr (inr e) ↦ inr (λ n. absurd (cc), rw (detect_loop, e) refl, rw (detect_loop, e) refl)
  ]

  -- With a threshold above 0, a loop is reported exactly when the last actions, clipped, are one
  -- action as often as the threshold says, or a block of that length twice; and a violation is
  -- recorded exactly then.
  pub detect_loop-detects :
      (g : SafetyGuard) (history : List String)
      → 0 < g.loop_threshold
      → let n = g.loop_threshold in
        let c = map clip history in
        let (g', passed) = detect_loop clip g history in
        ((passed ≡ false) ↔ (Repeats n c ⊎ Alternates n c))
        × (g'.violations ≡ (if passed then g.violations else g.violations ++ "loop_detected" ∷ []))
  detect_loop-detects g history h =
      let iff = find_loop-detects g.loop_threshold history h in
      elim (detect_loop-cases g history) [
        | inl (e, p, v) ↦ rw (p, v) ((λ f. absurd (cc), λ d. absurd (iff.1 d e)), refl)
        | inr (e, p, v) ↦ rw (p, v) ((λ f. iff.0 e, λ d. refl), refl)
      ]
