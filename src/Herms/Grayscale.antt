-- ===== src/Herms/Grayscale.antt =====
-- src/herms/grayscale.py: `GrayscaleRouter`, which sends each key to a version by weight.
-- A weight is a fraction of the scale of the router, so that `bucket / 100.0 < cumulative` is compared
-- by multiplying out. The number that MD5 makes of a text, its first eight hexadecimal digits, is the
-- parameter `hash`; the configuration of a version is of the type `C`.
mod Shares
mod Tests
use Prim.Native.String.{◌++◌ as join}
use ai_agent_code.Common.{
  ◌%◌, ℕ, ℤ, pos, negsuc, diff, zero, suc, ◌+◌, ◌-◌, ◌*◌, ◌/◌, ◌≤◌, ◌<◌, min, max, ◌≡◌, ◌≢◌, ◌⊎◌,
  ◌↔◌, inl, inr, refl, sym, ap, ◌∙◌, Bool, true, false, not, ◌&&◌, ◌||◌, Option, none, some, List,
  [], ◌∷◌, ◌++◌, map, reverse, arith, String, if◌then◌else◌, leb, ltb, ◌==◌, ◌≟◌, elem, length,
  drop, take, keep, count, get_last?, slice_last, All, Bool-cases, Option-cases, Key, string_key,
  nat_key,
}

pub record VersionTarget (C : Type 0) : Type 0 where
  pub name : String
  pub weight : ℕ
  pub config : C

pub record RouteDecision (C : Type 0) : Type 0 where
  pub selected : String
  pub bucket : ℕ
  pub metadata : C

-- The targets are the first one and the rest: there is at least one.
pub record GrayscaleRouter (C : Type 0) : Type 0 where
  pub first : VersionTarget C
  pub others : List (VersionTarget C)
  pub salt : String
  pub scale : ℕ

module _ {C : Type 0} where
  -- `__init__`: `none` is the `ValueError`.
  pub init : List (VersionTarget C) → String → ℕ → Option (GrayscaleRouter C)
  init [] salt scale = none
  init (t ∷ ts) salt scale = some (record { first = t; others = ts; salt = salt; scale = scale })

  -- The loop of `route`, from the cumulative weight so far; the last target is what is left over.
  pub select : ℕ → ℕ → ℕ → VersionTarget C → List (VersionTarget C) → VersionTarget C
  select scale bucket cumulative t [] = t
  select scale bucket cumulative t (u ∷ ts) =
      let next = select scale bucket (cumulative + t.weight) u ts in
      if ltb (bucket * scale) ((cumulative + t.weight) * 100) then t else next

module _ {C : Type 0} (hash : String → ℕ) where
  -- `_stable_bucket`
  pub stable_bucket : GrayscaleRouter C → String → ℕ
  stable_bucket r key = hash (join r.salt (join ":" key)) % 100

  -- `route`
  pub route : GrayscaleRouter C → String → RouteDecision C
  unfolding stable_bucket select
  route r key =
      let bucket = stable_bucket r key in
      let target = select r.scale bucket 0 r.first r.others in
      record { selected = target.name; bucket = bucket; metadata = target.config }

  -- `canary`
  pub canary : GrayscaleRouter C → String → Bool
  unfolding route
  canary r key = not ((route r key).selected ≟ r.first.name)
