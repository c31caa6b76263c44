-- ===== src/Common/Unique.antt =====
-- Association lists in which a key stands once.
use ai_agent_code.Common.Dict
use ai_agent_code.Common.Dict.{Dict}
use ai_agent_code.Common.{◌≡◌, refl, none, [], ◌∷◌, arith, Key, ◌≟◌, ◌∙◌, ap, Bool-cases, inl, inr}

module _ {ℓ κ} {K : Type ℓ} {V : Type κ} ⦃e : Key K⦄ where
  unfoldable pub AreUnique : Dict K V → Type (ℓ ⊔ κ)
  AreUnique [] = Unit
  AreUnique ((k, v) ∷ d) = (Dict.lookup k d ≡ none) × AreUnique d

  pub insert-AreUnique :
      (k : K) (v : V) (d : Dict K V) → AreUnique d → AreUnique (Dict.insert k v d)
  unfolding AreUnique
  insert-AreUnique k v [] u = (refl, tt)
  insert-AreUnique k v ((j, w) ∷ d) u = elim (Bool-cases (k ≟ j)) [
    | inl b ↦
        let p : k ≡ j = ground (arith, e.same_iff k j) in
        rw b (ap (λ x. Dict.lookup x d) p ∙ u.0, u.1)
    | inr b ↦ rw b (
      ground (arith, Dict.lookup-insert j k v d, e.same_iff j k, e.same_iff k j, u.0),
      insert-AreUnique k v d u.1,
    )
  ]

  pub erase-AreUnique : (k : K) (d : Dict K V) → AreUnique d → AreUnique (Dict.erase k d)
  unfolding AreUnique
  erase-AreUnique k [] u = tt
  erase-AreUnique k ((j, w) ∷ d) u = elim (Bool-cases (k ≟ j)) [
    | inl b ↦ rw b (erase-AreUnique k d u.1)
    | inr b ↦ rw b (ground (arith, Dict.lookup-erase j k d, u.0), erase-AreUnique k d u.1)
  ]
