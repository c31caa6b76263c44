-- ===== src/Common/Keys.antt =====
-- Equality tests on keys, as an interface with the instances that the program uses.
use Prim.Native.Nat.{ℕ}
use Prim.Native.String.{String}
use mathlib.Core.Path.{◌≡◌, refl}
use mathlib.Core.Logic.{◌↔◌}
use mathlib.Core.Bool.{Bool, true, false, ◌||◌}
use mathlib.Core.List.{List, [], ◌∷◌}
use text.Mathlib.Text.{◌==◌ as str_eq}
use text.Mathlib.TextEquality.{eq_iff}
use ai_agent_code.Common.Tests.{◌==◌, ==_iff}

pub record Key {ℓ} (K : Type ℓ) : Type ℓ where
  pub same : K → K → Bool
  pub same_iff : (a b : K) → (same a b ≡ true) ↔ (a ≡ b)

instance abbrev pub nat_key : Key ℕ
nat_key = record { same = ◌==◌; same_iff = ==_iff }

instance abbrev pub string_key : Key String
string_key = record { same = str_eq; same_iff = eq_iff }

infix 50 ◌≟◌
abbrev pub ◌≟◌ {ℓ} : {K : Type ℓ} ⦃k : Key K⦄ → K → K → Bool
◌≟◌ ⦃k⦄ = k.same

-- `a in xs`
abbrev pub elem {ℓ} : {K : Type ℓ} ⦃k : Key K⦄ → K → List K → Bool
elem a [] = false
elem a (x ∷ xs) = a ≟ x || elem a xs

pub same_refl {ℓ} : {K : Type ℓ} ⦃k : Key K⦄ (a : K) → (a ≟ a) ≡ true
same_refl ⦃k⦄ a = (k.same_iff a a).1 refl
