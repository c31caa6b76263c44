-- ===== src/Agents/Deadlock/Order.antt =====
-- src/agents/communication/deadlock.py: agents in an order in which each waits only on later ones.
use ai_agent_code.Common.{
  subst, ℕ, suc, ◌≤◌, ◌<◌, ◌≡◌, inl, inr, sym, ap, ◌∙◌, true, List, [], ◌∷◌, ◌++◌, arith, String,
  if◌then◌else◌, ◌≟◌, elem, length, Bool-cases, string_key, nat_key,
}
use ai_agent_code.Agents.Deadlock.{Graph, neighbors, keys}
use ai_agent_code.Agents.Deadlock.Graph.{neighbors-key}
use ai_agent_code.Agents.Deadlock.Cycles.{IsWalk, IsCycle}

-- All of some agents are in a list.
unfoldable pub IsIn : List String → List String → Type 0
IsIn order agents = (b : String) → elem b agents ≡ true → elem b order ≡ true

-- Whom an agent waits on comes after it.
unfoldable pub IsOrder : Graph → List String → Type 0
IsOrder g [] = Unit
IsOrder g (a ∷ order) = IsIn order (neighbors g a) × IsOrder g order

-- How many agents there are from the last place of an agent on.
rank : String → List String → ℕ
rank a [] = 0
rank a (x ∷ order) = if elem a order then rank a order else if a ≟ x then suc (length order) else 0

rank-le : (a : String) (order : List String) → rank a order ≤ length order
unfolding rank
rank-le a [] = omega arith
rank-le a (x ∷ order) = ground (arith, rank-le a order)

step-rank :
    (g : Graph) (order : List String) (a b : String)
    → IsOrder g order
    → elem a order ≡ true
    → elem b (neighbors g a) ≡ true
    → (elem b order ≡ true) × (rank b order < rank a order)
unfolding rank IsOrder IsIn
step-rank g [] a b o e n = absurd (cc)
step-rank g (x ∷ order) a b o e n = elim (Bool-cases (elem a order)) [
  | inl i ↦
      let (p, q) = step-rank g order a b o.1 i n in (ground (arith, p), ground (arith, p, q, i))
  | inr i ↦
      let q : a ≡ x = ground (arith, i, e, string_key.same_iff a x) in
      let p = o.0 b (ap (λ z. elem b (neighbors g z)) (sym q) ∙ n) in
      (ground (arith, p), ground (arith, p, i, q, rank-le b order, string_key.same_iff a x))
]

walk-rank :
    (g : Graph) (order : List String) (a b : String) (between : List String)
    → IsOrder g order
    → elem a order ≡ true
    → IsWalk g (a ∷ between ++ b ∷ [])
    → rank b order < rank a order
unfolding IsWalk
walk-rank g order a b [] o e w = (step-rank g order a b o e w.0).1
walk-rank g order a b (c ∷ between) o e w =
    let (p, q) = step-rank g order a c o e w.0 in
    omega (arith, q, walk-rank g order c b between o p w.1)

first-step :
    (g : Graph) (a b : String) (between : List String)
    → IsWalk g (a ∷ between ++ b ∷ [])
    → (c : String) × (elem c (neighbors g a) ≡ true)
unfolding IsWalk
first-step g a b [] w = (b, w.0)
first-step g a b (c ∷ between) w = (c, w.0)

walks-key : (g : Graph) (a c : String) → elem c (neighbors g a) ≡ true → elem a (keys g) ≡ true
walks-key g a c e = elim (Bool-cases (elem a (keys g))) [
  | inl k ↦ k
  | inr k ↦ absurd (ground (arith, sym e ∙ ap (elem c) (neighbors-key g a k)))
]

-- A graph with an order of all who wait has no cycle.
pub order-IsCycle :
    (g : Graph) (order c : List String) → IsOrder g order → IsIn order (keys g) → ¬ IsCycle g c
unfolding IsCycle IsIn
order-IsCycle g order c o k (a, between, e, w) =
    let w' : IsWalk g (a ∷ between ++ a ∷ []) = subst (IsWalk g) e w in
    let (b, n) = first-step g a a between w' in
    let r = walk-rank g order a a between o (k a (walks-key g a b n)) w' in
    absurd (omega (arith, r))
