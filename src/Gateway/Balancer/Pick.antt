-- ===== src/Gateway/Balancer/Pick.antt =====
-- The candidate that the loop of `select` ends with: the one of the smallest counter for its weight.
use native.Mathlib.Nat.{le_of_mul-le-mul_right, mul-le-mul_right}
use ai_agent_code.Common.Dict.{Dict}
use ai_agent_code.Common.{
  string_key, ◌≟◌, elem, ℕ, ◌*◌, ◌≡◌, ◌≤◌, ◌<◌, true, Option, none, some, if◌then◌else◌, String,
  List, [], ◌∷◌, arith, inl, inr, ◌⊎◌, Bool-cases,
}
use ai_agent_code.Gateway.Balancer.{weight_of, counter_of, beats, pick}

trans_ratio : (a b c u v w : ℕ) → 0 < v → a * v ≤ b * u → b * w ≤ c * v → a * w ≤ c * u
trans_ratio a b c u v w pos h k =
    let h' : a * v * w ≤ b * u * w = mul-le-mul_right w h in
    let k' : b * w * u ≤ c * v * u = mul-le-mul_right u k in
    le_of_mul-le-mul_right {k = v} (omega arith) pos

module _ (counters weights : Dict String ℕ) where
  -- The best so far has the ratio that goes with it.
  abbrev Matches : String → Option (ℕ × ℕ) → Type 0
  Matches best none = Unit
  Matches best (some (c, w)) =
      (c ≡ counter_of counters best) × (w ≡ weight_of weights best) × (0 < w)

  -- No candidate is left that has a smaller ratio than the best: `q` has been looked at.
  abbrev NoWorse : Option (ℕ × ℕ) → String → Type 0
  NoWorse none q = weight_of weights q ≡ 0
  NoWorse (some (c, w)) q = c * weight_of weights q ≤ counter_of counters q * w

  module _ (p : String) where
    weight : ℕ
    weight = weight_of weights p

    counter : ℕ
    counter = counter_of counters p

    next_ratio : Option (ℕ × ℕ) → Option (ℕ × ℕ)
    unfolding weight counter
    next_ratio ratio = if beats counter weight ratio then some (counter, weight) else ratio

    next_best : String → Option (ℕ × ℕ) → String
    unfolding weight counter
    next_best best ratio = if beats counter weight ratio then p else best

    next-Matches :
        (best : String) (ratio : Option (ℕ × ℕ))
        → Matches best ratio
        → Matches (next_best best ratio) (next_ratio ratio)
    unfolding next_ratio next_best
    next-Matches best none m = ground arith
    next-Matches best (some (c, w)) m = ground arith

    next-NoWorse_new : (ratio : Option (ℕ × ℕ)) → NoWorse (next_ratio ratio) p
    unfolding next_ratio
    next-NoWorse_new none = ground arith
    next-NoWorse_new (some (c, w)) = ground arith

    next-NoWorse_old :
        (best q : String) (ratio : Option (ℕ × ℕ))
        → Matches best ratio
        → NoWorse ratio q
        → NoWorse (next_ratio ratio) q
    unfolding next_ratio
    next-NoWorse_old best q none m h = grind arith
    next-NoWorse_old best q (some (c, w)) m h = grind (
      arith,
      trans_ratio (counter_of counters p) c (counter_of counters q) (weight_of weights p) w
          (weight_of weights q) m.2,
    )

  -- What the loop returns is no worse than any candidate that it has looked at or will.
  abbrev pub Wins : String → String → Type 0
  Wins r q =
      (weight_of weights q ≡ 0)
      ⊎ ((0 < weight_of weights r)
          × (counter_of counters r * weight_of weights q
              ≤ counter_of counters q * weight_of weights r))

  NoWorse-Wins :
      (best q : String) (ratio : Option (ℕ × ℕ))
      → Matches best ratio
      → NoWorse ratio q
      → Wins best q
  NoWorse-Wins best q none m h = inl h
  NoWorse-Wins best q (some (c, w)) m h = inr (rw (← m.1) (m.2), rw (← m.0, ← m.1) h)

  pick-seen :
      (best q : String) (ratio : Option (ℕ × ℕ)) (ps : List String)
      → Matches best ratio
      → NoWorse ratio q
      → Wins (pick counters weights best ratio ps) q
  unfolding pick next_best next_ratio
  pick-seen best q ratio [] m h = NoWorse-Wins best q ratio m h
  pick-seen best q ratio (p ∷ ps) m h =
      pick-seen (next_best p best ratio) q (next_ratio p ratio) ps (next-Matches p best ratio m)
        (next-NoWorse_old p best q ratio m h)

  -- What the loop returns is no worse than any of the candidates.
  pub pick-Wins :
      (best q : String) (ratio : Option (ℕ × ℕ)) (ps : List String)
      → Matches best ratio
      → elem q ps ≡ true
      → Wins (pick counters weights best ratio ps) q
  unfolding pick next_best next_ratio
  pick-Wins best q ratio [] m h = absurd (cc)
  pick-Wins best q ratio (p ∷ ps) m h = elim (Bool-cases (q ≟ p)) [
    | inl e ↦
        pick-seen (next_best p best ratio) q (next_ratio p ratio) ps (next-Matches p best ratio m)
          (rw ((string_key.same_iff q p).0 e) (next-NoWorse_new p ratio))
    | inr e ↦
        pick-Wins (next_best p best ratio) q (next_ratio p ratio) ps (next-Matches p best ratio m)
          (rw e at h)
  ]
