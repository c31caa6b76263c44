-- ===== src/Resilience/Timeout/Hierarchy.antt =====
-- src/resilience/timeout.py: what an empty list of violations means.
use ai_agent_code.Common.Dict
use ai_agent_code.Common.{
  ℕ, ◌<◌, ◌≡◌, ◌↔◌, inl, inr, refl, some, List, [], ◌∷◌, ◌++◌, arith, String, All, Option-cases,
  string_key, nat_key,
}
use ai_agent_code.Resilience.Timeout.{
  TimeoutPolicy, violation, chain_violations, violations, validate_hierarchy, layer_chains,
}

-- One layer's timeout is below another's, if both are in the table.
pub Shorter : TimeoutPolicy → String → String → Type 0
Shorter p inner outer =
    (i o : ℕ)
    → Dict.lookup inner p.timeouts ≡ some i
    → Dict.lookup outer p.timeouts ≡ some o
    → i < o

-- Every layer of a chain is shorter than all that come after it.
pub Nested : TimeoutPolicy → List String → Type 0
Nested p [] = Unit
Nested p (inner ∷ chain) = All (λ (outer : String). Shorter p inner outer) chain × Nested p chain

-- The table has every layer of a chain.
unfoldable pub Complete : TimeoutPolicy → List String → Type 0
Complete p chain = All (λ (layer : String). (t : ℕ) × (Dict.lookup layer p.timeouts ≡ some t)) chain

violation-Shorter :
    (p : TimeoutPolicy) (inner outer : String)
    → (violation p inner outer ≡ []) ↔ Shorter p inner outer
unfolding violation Shorter
violation-Shorter p inner outer = elim (Option-cases (Dict.lookup inner p.timeouts)) [
  | inl e ↦ (λ _ i o h g. absurd (cc), λ _. rw (violation, e) refl)
  | inr (i, e) ↦ elim (Option-cases (Dict.lookup outer p.timeouts)) [
    | inl f ↦ (λ _ i' o h g. absurd (cc), λ _. rw (violation, e, f) refl)
    | inr (o, f) ↦ (λ n i' o' h g. ground arith, λ s. let q = s i o e f in ground arith)
  ]
]

append-empty : {A : Type 0} (xs ys : List A) → (xs ++ ys ≡ []) ↔ ((xs ≡ []) × (ys ≡ []))
append-empty [] ys = (λ e. (refl, e), λ e. e.1)
append-empty (x ∷ xs) ys = (λ e. absurd (cc), λ e. absurd (let f = e.0 in cc))

Shorter-trans :
    (p : TimeoutPolicy) (inner outer far : String) (t : ℕ)
    → Dict.lookup outer p.timeouts ≡ some t
    → Shorter p inner outer
    → Shorter p outer far
    → Shorter p inner far
unfolding Shorter
Shorter-trans p inner outer far t e s s' i o h g =
    let x = s i t h e in let y = s' t o e g in omega arith

-- With the middle layer in the table, being shorter is transitive.
Shorter-through :
    (p : TimeoutPolicy) (inner outer : String) (chain : List String)
    → Complete p (outer ∷ chain)
    → Shorter p inner outer
    → All (λ (far : String). Shorter p outer far) chain
    → All (λ (far : String). Shorter p inner far) chain
unfolding Complete
Shorter-through p inner outer [] c s a = tt
Shorter-through p inner outer (far ∷ chain) (c, (_, cs)) s a = (
  Shorter-trans p inner outer far c.0 c.1 s a.0,
  Shorter-through p inner outer chain (c, cs) s a.1,
)

chain-Nested :
    (p : TimeoutPolicy) (chain : List String)
    → Complete p chain
    → (chain_violations p chain ≡ []) ↔ Nested p chain
unfolding chain_violations Nested Complete
chain-Nested p [] c = (λ _. tt, λ _. refl)
chain-Nested p (x ∷ []) c = (λ _. (tt, tt), λ _. refl)
chain-Nested p (x ∷ y ∷ chain) c =
    let rest = chain-Nested p (y ∷ chain) c.1 in
    let both = append-empty (violation p x y) (chain_violations p (y ∷ chain)) in
    let v = violation-Shorter p x y in
    (
      λ e.
          let n = rest.0 (both.0 e).1 in
          let s = v.0 (both.0 e).0 in ((s, Shorter-through p x y chain c.1 s n.0), n),
      λ n. both.1 (v.1 n.0.0, rest.1 n.1),
    )

violations-Nested :
    (p : TimeoutPolicy) (chains : List (List String))
    → All (Complete p) chains
    → (violations p chains ≡ []) ↔ All (Nested p) chains
unfolding violations
violations-Nested p [] c = (λ _. tt, λ _. refl)
violations-Nested p (chain ∷ chains) c =
    let first = chain-Nested p chain c.0 in
    let rest = violations-Nested p chains c.1 in
    let both = append-empty (chain_violations p chain) (violations p chains) in
    (λ e. (first.0 (both.0 e).0, rest.0 (both.0 e).1), λ n. both.1 (first.1 n.0, rest.1 n.1))

-- For a table with every layer of the chains, the hierarchy has no violation exactly when each
-- layer is shorter than every layer outside it, not only than its neighbour.
pub validate_hierarchy-Nested :
    (p : TimeoutPolicy)
    → All (Complete p) layer_chains
    → (validate_hierarchy p ≡ []) ↔ All (Nested p) layer_chains
unfolding validate_hierarchy
validate_hierarchy-Nested p c = violations-Nested p layer_chains c
