-- ===== src/Gateway/Balancer/Fairness.antt =====
-- Repeated selection shares the requests out by weight.
use ai_agent_code.Common.Dict
use ai_agent_code.Common.Dict.{Dict}
use ai_agent_code.Common.{
  ℕ, zero, suc, ◌+◌, ◌*◌, ◌≡◌, ◌≤◌, ◌<◌, true, false, none, some, if◌then◌else◌, String, string_key,
  List, [], ◌∷◌, arith, inl, inr, Bool-cases, elem, ◌≟◌,
}
use ai_agent_code.Gateway.Balancer.{weight_of, counter_of, pick, select}
use ai_agent_code.Gateway.Balancer.Pick.{Wins, pick-Wins}

counter-insert :
    (counters : Dict String ℕ) (best : String) (n : ℕ) (q : String)
    → counter_of (Dict.insert best n counters) q ≡ (if q ≟ best then n else counter_of counters q)
counter-insert counters best n q = ground (arith, Dict.lookup-insert q best n counters)

module _ (weights : Dict String ℕ) where
  -- `i` is at most one request ahead of the share of `j`: c_i / w_i is at most c_j / w_j + 1 / w_i.
  abbrev pub Ahead : Dict String ℕ → String → String → Type 0
  Ahead counters i j =
      counter_of counters i * weight_of weights j
      ≤ counter_of counters j * weight_of weights i + weight_of weights j

  module _ (counters : Dict String ℕ) (best : String) where
    counted : Dict String ℕ
    counted = Dict.insert best (counter_of counters best + 1) counters

    counter-best : counter_of counted best ≡ counter_of counters best + 1
    unfolding counted
    counter-best = ground (
      arith,
      counter-insert counters best (counter_of counters best + 1) best,
      string_key.same_iff best best,
    )

    counter-other : (q : String) → (q ≟ best) ≡ false → counter_of counted q ≡ counter_of counters q
    unfolding counted
    counter-other q e =
        ground (arith, counter-insert counters best (counter_of counters best + 1) q)

    best-Ahead :
        (j : String)
        → Wins counters weights best j
        → 0 < weight_of weights j
        → (j ≟ best) ≡ false
        → Ahead counted best j
    best-Ahead j w pos e = rw (counter-best, counter-other j e) (omega (arith, w))

    Ahead-best : (i : String) → (i ≟ best) ≡ false → Ahead counters i best → Ahead counted i best
    Ahead-best i e h = rw (counter-best, counter-other i e) (omega arith)

    Ahead-other :
        (i j : String)
        → (i ≟ best) ≡ false
        → (j ≟ best) ≡ false
        → Ahead counters i j
        → Ahead counted i j
    Ahead-other i j e f h = rw (counter-other i e, counter-other j f) h

    counted-Ahead :
        (i j : String)
        → Wins counters weights best j
        → 0 < weight_of weights j
        → Ahead counters i j
        → Ahead counted i j
    counted-Ahead i j w pos h = elim (Bool-cases (i ≟ best)) [
      | inl e ↦ rw ((string_key.same_iff i best).0 e) (elim (Bool-cases (j ≟ best)) [
        | inl f ↦ rw ((string_key.same_iff j best).0 f) (omega arith)
        | inr f ↦ best-Ahead j w pos f
      ])
      | inr e ↦ elim (Bool-cases (j ≟ best)) [
        | inl f ↦
            let same = (string_key.same_iff j best).0 f in rw same (Ahead-best i e (rw same at h))
        | inr f ↦ Ahead-other i j e f h
      ]
    ]

  -- The counters after so many selections among the same candidates.
  unfoldable pub selections : List String → ℕ → Dict String ℕ → Dict String ℕ
  selections cs zero counters = counters
  selections cs (suc n) counters = elim (select counters cs weights) [
    | none ↦ counters
    | some (counters', _) ↦ selections cs n counters'
  ]

  selections-Ahead :
      (p q : String) (ps : List String) (n : ℕ) (counters : Dict String ℕ) (i j : String)
      → elem j (p ∷ q ∷ ps) ≡ true
      → 0 < weight_of weights j
      → Ahead counters i j
      → Ahead (selections (p ∷ q ∷ ps) n counters) i j
  unfolding selections select counted
  selections-Ahead p q ps zero counters i j m pos h = h
  selections-Ahead p q ps (suc n) counters i j m pos h =
      let best = pick counters weights p none (p ∷ q ∷ ps) in
      selections-Ahead p q ps n (counted counters best) i j m pos (
        counted-Ahead counters best i j (pick-Wins counters weights p j none (p ∷ q ∷ ps) tt m) pos
          h)

  -- However many requests are shared out among two or more candidates by a balancer that starts
  -- with no counts, no provider `i` is by its weight more than one request ahead of a candidate
  -- `j` that has a positive weight.
  pub selections-fair :
      (p q : String) (ps : List String) (n : ℕ) (i j : String)
      → elem j (p ∷ q ∷ ps) ≡ true
      → 0 < weight_of weights j
      → Ahead (selections (p ∷ q ∷ ps) n []) i j
  selections-fair p q ps n i j m pos = selections-Ahead p q ps n [] i j m pos (omega arith)
