-- ===== src/Agents/Deadlock/Cycles.antt =====
-- src/agents/communication/deadlock.py: walks and cycles of who waits on whom.
use ai_agent_code.Common.{
  ◌≡◌, inl, inr, ap, true, List, [], ◌∷◌, ◌++◌, arith, String, ◌≟◌, elem, All, Bool-cases,
  string_key, nat_key,
}
use ai_agent_code.Agents.Deadlock.{Graph, neighbors, from_first, Search}

-- Each name but the last waits on the next one.
unfoldable pub IsWalk : Graph → List String → Type 0
IsWalk g [] = Unit
IsWalk g (a ∷ []) = Unit
IsWalk g (a ∷ b ∷ rest) = (elem b (neighbors g a) ≡ true) × IsWalk g (b ∷ rest)

-- A walk that ends where it starts.
unfoldable pub IsCycle : Graph → List String → Type 0
IsCycle g c = (a : String) × (between : List String) × (c ≡ a ∷ between ++ a ∷ []) × IsWalk g c

step-IsWalk :
    (g : Graph) (path : List String) (a b : String)
    → IsWalk g (path ++ a ∷ [])
    → elem b (neighbors g a) ≡ true
    → IsWalk g (path ++ a ∷ [] ++ b ∷ [])
unfolding IsWalk
step-IsWalk g [] a b w e = (e, tt)
step-IsWalk g (x ∷ []) a b w e = (w.0, (e, tt))
step-IsWalk g (x ∷ y ∷ path) a b w e = (w.0, step-IsWalk g (y ∷ path) a b w.1 e)

tail-IsWalk : (g : Graph) (a : String) (rest : List String) → IsWalk g (a ∷ rest) → IsWalk g rest
unfolding IsWalk
tail-IsWalk g a [] w = tt
tail-IsWalk g a (b ∷ rest) w = w.1

from_first-IsWalk :
    (g : Graph) (a : String) (path : List String)
    → elem a path ≡ true
    → IsWalk g (path ++ a ∷ [])
    → IsWalk g (from_first a path ++ a ∷ [])
unfolding from_first
from_first-IsWalk g a [] e w = absurd (cc)
from_first-IsWalk g a (x ∷ path) e w = elim (Bool-cases (x ≟ a)) [
  | inl b ↦ rw b w
  | inr b ↦ rw b (
      from_first-IsWalk g a path (ground (arith, string_key.same_iff a x, string_key.same_iff x a))
        (tail-IsWalk g x (path ++ a ∷ []) w))
]

from_first-head :
    (a : String) (path : List String)
    → elem a path ≡ true
    → (rest : List String) × (from_first a path ≡ a ∷ rest)
unfolding from_first
from_first-head a [] e = absurd (cc)
from_first-head a (x ∷ path) e = elim (Bool-cases (x ≟ a)) [
  | inl b ↦
      let p : x ≡ a = ground (arith, string_key.same_iff x a) in (path, rw b (ap (λ y. y ∷ path) p))
  | inr b ↦
      let (rest, q) =
        from_first-head a path (ground (arith, string_key.same_iff a x, string_key.same_iff x a)) in
      (rest, rw b q)
]

pub from_first-IsCycle :
    (g : Graph) (a : String) (path : List String)
    → elem a path ≡ true
    → IsWalk g (path ++ a ∷ [])
    → IsCycle g (from_first a path ++ a ∷ [])
unfolding IsCycle
from_first-IsCycle g a path e w =
    let (rest, p) = from_first-head a path e in
    (a, rest, ap (λ x. x ++ a ∷ []) p, from_first-IsWalk g a path e w)

-- A path may be continued by each of some agents.
unfoldable pub IsAhead : Graph → List String → List String → Type 0
IsAhead g path agents = All (λ a. IsWalk g (path ++ a ∷ [])) agents

pub neighbors-IsAhead :
    (g : Graph) (path : List String) (a : String) (bs : List String)
    → IsWalk g (path ++ a ∷ [])
    → ((b : String) → elem b bs ≡ true → elem b (neighbors g a) ≡ true)
    → IsAhead g (path ++ a ∷ []) bs
unfolding IsAhead
neighbors-IsAhead g path a [] w h = tt
neighbors-IsAhead g path a (b ∷ bs) w h = (
  step-IsWalk g path a b w (h b (ground (arith, string_key.same_iff b b))),
  neighbors-IsAhead g path a bs w (λ c e. h c (ground (arith, e))),
)

pub All-append :
    {A : Type 0} (P : A → Type 0) (xs : List A) (y : A) → All P xs → P y → All P (xs ++ y ∷ [])
All-append P [] y a p = (p, tt)
All-append P (x ∷ xs) y a p = (a.0, All-append P xs y a.1 p)

unfoldable pub AreCycles : Graph → Search → Type 0
AreCycles g s = All (IsCycle g) s.cycles
