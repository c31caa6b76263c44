-- ===== src/Gateway/Latency/Pick.antt =====
-- src/ai_gateway/load_balancer.py: the choice of `LeastLatency.select` when no median raises.
use ai_agent_code.Common.{
  ℕ, ◌≤◌, ◌≡◌, ◌⊎◌, inl, inr, refl, ap, ◌∙◌, true, false, Option, none, some, List, [], ◌∷◌, arith,
  String, if◌then◌else◌, ltb, elem, All, Bool-cases, Option-cases, string_key, nat_key,
}
use ai_agent_code.Gateway.Latency.{
  untested, tested, statistics_error, LeastLatency, p50_of, is_less,
}

-- The last of some candidates, or another one if there are none.
pub last_of : String → List String → String
last_of c [] = c
last_of c (d ∷ ds) = last_of d ds

skip :
    (best c r r' : String) (cs : List String)
    → r' ≡ r
    → elem r (c ∷ cs) ≡ true
    → elem r' (best ∷ c ∷ cs) ≡ true
skip best c r r' cs e i = ap (λ x. elem x (best ∷ c ∷ cs)) e ∙ ground (arith, i)

stay :
    (best c r r' : String) (cs : List String)
    → r' ≡ r
    → elem r (best ∷ cs) ≡ true
    → elem r' (best ∷ c ∷ cs) ≡ true
stay best c r r' cs e i = ap (λ x. elem x (best ∷ c ∷ cs)) e ∙ ground (arith, i)

module _ (median : ℕ → List ℕ → ℕ) (l : LeastLatency) where
  -- The median of a candidate that has enough samples, and not none.
  unfoldable pub p50 : String → Option ℕ
  p50 c = elim (p50_of median l c) [ untested ↦ none | statistics_error ↦ none | tested p ↦ some p ]

  -- The choice that the loop makes when no median raises.
  unfoldable pub pick : String → Option ℕ → List String → String
  pick best best_p50 [] = best
  pick best best_p50 (c ∷ cs) = elim (p50 c) [
    | some q ↦ if is_less median q best_p50 then pick c (some q) cs else pick best best_p50 cs
    | none ↦ elim best_p50 [ none ↦ pick c none cs | some q ↦ pick best (some q) cs ]
  ]

  -- No candidate has a lower median.
  unfoldable pub IsLeast : ℕ → List String → Type 0
  IsLeast m cs = All (λ c. (p50 c ≡ none) ⊎ ((p : ℕ) × (p50 c ≡ some p) × (m ≤ p))) cs

  -- A provider with enough samples whose median is at most a bound and that of no candidate.
  Wins : ℕ → List String → String → Type 0
  Wins m cs r = (p : ℕ) × (p50 r ≡ some p) × (p ≤ m) × IsLeast p cs

  pick-untested :
      (best : String) (m : ℕ) (c : String) (cs : List String)
      → p50 c ≡ none
      → pick best (some m) (c ∷ cs) ≡ pick best (some m) cs
  unfolding pick
  pick-untested best m c cs e = rw (pick, e) refl

  pick-tested :
      (best : String) (o : Option ℕ) (c : String) (p : ℕ) (cs : List String)
      → p50 c ≡ some p
      → pick best o (c ∷ cs) ≡ (if is_less median p o then pick c (some p) cs else pick best o cs)
  unfolding pick
  pick-tested best o c p cs e = rw (pick, e) refl

  pick-lower :
      (best : String) (m : ℕ) (c : String) (q : ℕ) (cs : List String)
      → p50 c ≡ some q
      → ltb q m ≡ true
      → pick best (some m) (c ∷ cs) ≡ pick c (some q) cs
  unfolding is_less
  pick-lower best m c q cs n b = pick-tested best (some m) c q cs n ∙ rw b refl

  pick-higher :
      (best : String) (m : ℕ) (c : String) (q : ℕ) (cs : List String)
      → p50 c ≡ some q
      → ltb q m ≡ false
      → pick best (some m) (c ∷ cs) ≡ pick best (some m) cs
  unfolding is_less
  pick-higher best m c q cs n b = pick-tested best (some m) c q cs n ∙ rw b refl

  pick-Wins :
      (best : String) (m : ℕ) (cs : List String)
      → p50 best ≡ some m
      → Wins m cs (pick best (some m) cs)
  unfolding Wins IsLeast
  pick-Wins best m [] e = (m, unfold pick in e, omega arith, tt)
  pick-Wins best m (c ∷ cs) e = elim (Option-cases (p50 c)) [
    | inl n ↦
        let (p, f, le, a) = pick-Wins best m cs e in
        let r = pick-untested best m c cs n in (p, ap (p50) r ∙ f, le, (inl n, a))
    | inr (q, n) ↦ elim (Bool-cases (ltb q m)) [
      | inl b ↦
          let (p, f, le, a) = pick-Wins c q cs n in
          let r = pick-lower best m c q cs n b in
          (p, ap (p50) r ∙ f, ground (arith, le, b), (inr (q, n, le), a))
      | inr b ↦
          let (p, f, le, a) = pick-Wins best m cs e in
          let r = pick-higher best m c q cs n b in
          (p, ap (p50) r ∙ f, le, (inr (q, n, ground (arith, le, b)), a))
    ]
  ]

  -- The provider that is chosen: one with enough samples, whose median is the least of those of the
  -- candidates with enough samples; or, when no candidate has enough, the last of them.
  unfoldable pub IsChosen : String → List String → String → Type 0
  IsChosen best cs r =
      ((p : ℕ) × (p50 r ≡ some p) × IsLeast p cs)
      ⊎ (All (λ c. p50 c ≡ none) cs × (r ≡ last_of best cs))

  pick-skip :
      (best c : String) (cs : List String) → p50 c ≡ none → pick best none (c ∷ cs) ≡ pick c none cs
  unfolding pick
  pick-skip best c cs n = rw (pick, n) refl

  pick-first :
      (best c : String) (q : ℕ) (cs : List String)
      → p50 c ≡ some q
      → pick best none (c ∷ cs) ≡ pick c (some q) cs
  unfolding is_less
  pick-first best c q cs n = pick-tested best none c q cs n

  pub pick-IsChosen : (best : String) (cs : List String) → IsChosen best cs (pick best none cs)
  unfolding IsChosen IsLeast last_of Wins
  pick-IsChosen best [] = inr (tt, unfold pick in refl)
  pick-IsChosen best (c ∷ cs) = elim (Option-cases (p50 c)) [
    | inl n ↦
        let r = pick-skip best c cs n in
        elim (pick-IsChosen c cs) [
          | inl (p, f, a) ↦ inl (p, ap (p50) r ∙ f, (inl n, a))
          | inr (a, e) ↦ inr ((n, a), r ∙ e)
        ]
    | inr (q, n) ↦
        let r = pick-first best c q cs n in
        let w : Wins q cs (pick c (some q) cs) = pick-Wins c q cs n in
        let (p, f, le, a) = w in inl (p, ap (p50) r ∙ f, (inr (q, n, le), a))
  ]

  pub one-IsChosen : (c : String) → IsChosen c (c ∷ []) c
  unfolding IsChosen IsLeast last_of
  one-IsChosen c = elim (Option-cases (p50 c)) [
    | inl n ↦ inr ((n, tt), refl)
    | inr (q, n) ↦ inl (q, n, (inr (q, n, omega arith), tt))
  ]

  -- The choice is the best so far or a candidate.
  pub pick-elem :
      (best : String) (o : Option ℕ) (cs : List String) → elem (pick best o cs) (best ∷ cs) ≡ true
  pick-elem best o [] = unfold pick in ground (arith, string_key.same_iff best best)
  pick-elem best none (c ∷ cs) = elim (Option-cases (p50 c)) [
    | inl n ↦ skip best c _ _ cs (pick-skip best c cs n) (pick-elem c none cs)
    | inr (q, n) ↦ skip best c _ _ cs (pick-first best c q cs n) (pick-elem c (some q) cs)
  ]
  pick-elem best (some m) (c ∷ cs) = elim (Option-cases (p50 c)) [
    | inl n ↦ stay best c _ _ cs (pick-untested best m c cs n) (pick-elem best (some m) cs)
    | inr (q, n) ↦ elim (Bool-cases (ltb q m)) [
      | inl b ↦ skip best c _ _ cs (pick-lower best m c q cs n b) (pick-elem c (some q) cs)
      | inr b ↦ stay best c _ _ cs (pick-higher best m c q cs n b) (pick-elem best (some m) cs)
    ]
  ]
