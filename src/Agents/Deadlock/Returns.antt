-- ===== src/Agents/Deadlock/Returns.antt =====
-- src/agents/communication/deadlock.py: when the search of some agents returns, step by step.
use ai_agent_code.Common.{
  ℕ, suc, ◌≤◌, ◌<◌, ◌≡◌, inl, inr, ap, ◌∙◌, true, false, some, List, [], ◌∷◌, ◌++◌, arith, String,
  elem, Bool-cases, string_key, nat_key,
}
use ai_agent_code.Agents.Deadlock.{Graph, neighbors, from_first, Search, dfs, keys}
use ai_agent_code.Agents.Deadlock.Graph.{
  dfs-nil, dfs-found, dfs-visited, dfs-deeper, unvisited, unvisited-le, unvisited-lt, neighbors-key,
}

-- The search returns, with no more agents unvisited than before, and a predicate holds of the result.
unfoldable pub Returns : ℕ → Graph → List String → List String → Search → (Search → Type 0) → Type 0
Returns fuel g path agents s P =
    (s' : Search) × (dfs fuel g path agents s ≡ some s')
    × (unvisited s'.visited (keys g) ≤ unvisited s.visited (keys g))
    × P s'

-- The search with one more agent visited, or with one more cycle found.
abbrev pub visit : Search → String → Search
visit s a = record s { visited = s.visited ++ a ∷ [] }

abbrev pub find : Search → List String → Search
find s cycle = record s { cycles = s.cycles ++ cycle ∷ [] }

pub stop-Returns :
    (fuel : ℕ) (g : Graph) (path agents : List String) (s : Search) (P : Search → Type 0)
    → agents ≡ []
    → P s
    → Returns fuel g path agents s P
unfolding Returns
stop-Returns fuel g path agents s P e p =
    (s, ap (λ x. dfs fuel g path x s) e ∙ dfs-nil fuel g path s, omega arith, p)

pub map-Returns :
    (fuel : ℕ) (g : Graph) (path agents : List String) (s : Search) (P Q : Search → Type 0)
    → ((s' : Search) → P s' → Q s')
    → Returns fuel g path agents s P
    → Returns fuel g path agents s Q
unfolding Returns
map-Returns fuel g path agents s P Q f (s', e, le, p) = (s', e, le, f s' p)

module _ (fuel : ℕ) (g : Graph) (path agents : List String) (a : String) (s : Search)
    (P : Search → Type 0) where
  pub found-Returns :
      elem a path ≡ true
      → Returns (suc fuel) g path agents (find s (from_first a path ++ a ∷ [])) P
      → Returns (suc fuel) g path (a ∷ agents) s P
  unfolding Returns
  found-Returns p (s', e, le, c) = (s', dfs-found fuel g path agents a s p ∙ e, le, c)

  pub visited-Returns :
      elem a path ≡ false
      → elem a s.visited ≡ true
      → Returns (suc fuel) g path agents s P
      → Returns (suc fuel) g path (a ∷ agents) s P
  unfolding Returns
  visited-Returns p v (s', e, le, c) = (s', dfs-visited fuel g path agents a s p v ∙ e, le, c)

  -- The search goes deeper only at an agent of the graph, and then fewer are unvisited.
  pub deeper-Returns :
      (Q : Search → Type 0)
      → elem a path ≡ false
      → elem a s.visited ≡ false
      → unvisited s.visited (keys g) < suc fuel
      → (unvisited (visit s a).visited (keys g) < fuel
          → Returns fuel g (path ++ a ∷ []) (neighbors g a) (visit s a) Q)
      → (neighbors g a ≡ [] → Q (visit s a))
      → ((s' : Search)
          → unvisited s'.visited (keys g) < suc fuel
          → Q s'
          → Returns (suc fuel) g path agents s' P)
      → Returns (suc fuel) g path (a ∷ agents) s P
  unfolding Returns
  deeper-Returns Q p v h deeper stop next =
      let grow = unvisited-le s.visited a (keys g) in
      let d : Returns fuel g (path ++ a ∷ []) (neighbors g a) (visit s a) Q =
        elim (Bool-cases (elem a (keys g))) [
          | inl k ↦ deeper (omega (arith, h, unvisited-lt s.visited a (keys g) k v))
          | inr k ↦
              let n = neighbors-key g a k in
              stop-Returns fuel g (path ++ a ∷ []) (neighbors g a) (visit s a) Q n (stop n)
        ] in
      let (s2, e2, le2, q) = d in
      let (s', e, le, c) = next s2 (omega (arith, h, le2, grow)) q in
      (s', dfs-deeper fuel g path agents a s s2 p v e2 ∙ e, omega (arith, le, le2, grow), c)
