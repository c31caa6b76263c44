-- ===== src/Agents/Deadlock/Graph.antt =====
-- src/agents/communication/deadlock.py: the steps of the search, and the agents that it has not visited.
use ai_agent_code.Common.{
  ℕ, zero, suc, ◌≤◌, ◌<◌, ◌≡◌, refl, ap, true, false, not, ◌||◌, some, List, [], ◌∷◌, ◌++◌, arith,
  String, ◌≟◌, elem, length, count, string_key, nat_key,
}
use ai_agent_code.Agents.Deadlock.{Graph, neighbors, from_first, Search, dfs, keys}

pub dfs-nil :
    (fuel : ℕ) (g : Graph) (path : List String) (s : Search) → dfs fuel g path [] s ≡ some s
unfolding dfs
dfs-nil zero g path s = refl
dfs-nil (suc fuel) g path s = refl

-- The search once a cycle is found.
pub dfs-found :
    (fuel : ℕ) (g : Graph) (path agents : List String) (a : String) (s : Search)
    → elem a path ≡ true
    → dfs (suc fuel) g path (a ∷ agents) s
      ≡ dfs
          (suc fuel)
          g
          path
          agents
          (record s { cycles = s.cycles ++ (from_first a path ++ a ∷ []) ∷ [] })
unfolding dfs
dfs-found fuel g path agents a s p = rw (dfs, p) refl

pub dfs-visited :
    (fuel : ℕ) (g : Graph) (path agents : List String) (a : String) (s : Search)
    → elem a path ≡ false
    → elem a s.visited ≡ true
    → dfs (suc fuel) g path (a ∷ agents) s ≡ dfs (suc fuel) g path agents s
unfolding dfs
dfs-visited fuel g path agents a s p v = rw (dfs, p, v) refl

pub dfs-deeper :
    (fuel : ℕ) (g : Graph) (path agents : List String) (a : String) (s s' : Search)
    → elem a path ≡ false
    → elem a s.visited ≡ false
    → dfs fuel g (path ++ a ∷ []) (neighbors g a) (record s { visited = s.visited ++ a ∷ [] })
      ≡ some s'
    → dfs (suc fuel) g path (a ∷ agents) s ≡ dfs (suc fuel) g path agents s'
unfolding dfs
dfs-deeper fuel g path agents a s s' p v d = rw (dfs, p, v, d) refl

-- How many of some agents are not visited.
pub unvisited : List String → List String → ℕ
unvisited visited ks = count (λ k. not (elem k visited)) ks

pub elem-append_one :
    (k a : String) (xs : List String) → elem k (xs ++ a ∷ []) ≡ (elem k xs || (k ≟ a))
elem-append_one k a [] = ground arith
elem-append_one k a (x ∷ xs) = ground (arith, elem-append_one k a xs)

pub unvisited-le :
    (v : List String) (a : String) (ks : List String) → unvisited (v ++ a ∷ []) ks ≤ unvisited v ks
unfolding unvisited
unvisited-le v a [] = omega arith
unvisited-le v a (k ∷ ks) = ground (arith, unvisited-le v a ks, elem-append_one k a v)

pub unvisited-lt :
    (v : List String) (a : String) (ks : List String)
    → elem a ks ≡ true
    → elem a v ≡ false
    → unvisited (v ++ a ∷ []) ks < unvisited v ks
unfolding unvisited
unvisited-lt v a [] e n = absurd (cc)
unvisited-lt v a (k ∷ ks) e n = ground (
  arith,
  unvisited-le v a ks,
  unvisited-lt v a ks,
  elem-append_one k a v,
  string_key.same_iff a k,
  string_key.same_iff k a,
)

pub unvisited-length : (v ks : List String) → unvisited v ks ≤ length ks
unfolding unvisited
unvisited-length v [] = omega arith
unvisited-length v (k ∷ ks) = ground (arith, unvisited-length v ks)

pub length-keys : (g : Graph) → length (keys g) ≡ length g
unfolding keys
length-keys [] = refl
length-keys ((k, s) ∷ g) = ap suc (length-keys g)

-- An agent that is no key of the graph waits on nobody.
pub neighbors-key : (g : Graph) (a : String) → elem a (keys g) ≡ false → neighbors g a ≡ []
unfolding keys neighbors
neighbors-key [] a e = refl
neighbors-key ((k, s) ∷ g) a e = ground (arith, neighbors-key g a)
