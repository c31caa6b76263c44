-- ===== src/Herms/Grayscale/Shares.antt =====
-- src/herms/grayscale.py: which version a bucket goes to.
use ai_agent_code.Common.{
  ℕ, ◌+◌, ◌*◌, ◌≤◌, ◌<◌, ◌≡◌, ◌⊎◌, inl, inr, refl, ap, List, [], ◌∷◌, ◌++◌, arith, String, ltb,
  Bool-cases, string_key, nat_key,
}
use ai_agent_code.Herms.Grayscale.{VersionTarget, GrayscaleRouter, select, stable_bucket, route}

module _ {C : Type 0} where
  pub total : List (VersionTarget C) → ℕ
  total [] = 0
  total (t ∷ ts) = t.weight + total ts

  -- A bucket belongs to a target: it lies between the weights of those before and those up to it, or
  -- it lies after those before and the target is the last.
  unfoldable pub IsShare : ℕ → ℕ → ℕ → List (VersionTarget C) → VersionTarget C → Type 0
  IsShare scale bucket cumulative ts t =
      (before : List (VersionTarget C)) × (after : List (VersionTarget C)) × (ts
        ≡ before ++ t ∷ after)
      × ((cumulative + total before) * 100 ≤ bucket * scale)
      × ((bucket * scale < (cumulative + total before + t.weight) * 100) ⊎ (after ≡ []))

  select-IsShare :
      (scale bucket cumulative : ℕ) (t : VersionTarget C) (ts : List (VersionTarget C))
      → cumulative * 100 ≤ bucket * scale
      → IsShare scale bucket cumulative (t ∷ ts) (select scale bucket cumulative t ts)
  unfolding IsShare select total
  select-IsShare scale bucket cumulative t [] h = ([], [], refl, omega (arith, h), inr refl)
  select-IsShare scale bucket cumulative t (u ∷ ts) h =
      elim (Bool-cases (ltb (bucket * scale) ((cumulative + t.weight) * 100))) [
        | inl b ↦ rw b ([], u ∷ ts, refl, omega (arith, h), inl (ground (arith, b)))
        | inr b ↦
            let (before, after, e, l, m) =
              select-IsShare scale bucket (cumulative + t.weight) u ts (ground (arith, b)) in
            rw b (
              t ∷ before,
              after,
              ap (λ x. t ∷ x) e,
              omega (arith, l),
              elim m [ inl f ↦ inl (omega (arith, f)) | inr f ↦ inr f ],
            )
      ]

module _ {C : Type 0} (hash : String → ℕ) where
  bucket-lt : (r : GrayscaleRouter C) (key : String) → stable_bucket hash r key < 100
  unfolding stable_bucket
  bucket-lt r key = omega arith

  -- Each key goes to the target that its bucket belongs to, with the name and the configuration of
  -- that target; the buckets are the numbers below 100, and one belongs to a target when it lies in
  -- the target's part of the weights laid end to end, or past all of them when the target is the last.
  pub route-IsShare :
      (r : GrayscaleRouter C) (key : String)
      → (t : VersionTarget C) × ((route hash r key).selected ≡ t.name)
        × ((route hash r key).metadata ≡ t.config)
        × ((route hash r key).bucket < 100)
        × IsShare r.scale (route hash r key).bucket 0 (r.first ∷ r.others) t
  unfolding route
  route-IsShare r key =
      let b = stable_bucket hash r key in
      (
        select r.scale b 0 r.first r.others,
        refl,
        refl,
        bucket-lt r key,
        select-IsShare r.scale b 0 r.first r.others (omega arith),
      )
