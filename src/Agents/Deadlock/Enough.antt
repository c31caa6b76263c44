-- ===== src/Agents/Deadlock/Enough.antt =====
-- src/agents/communication/deadlock.py: the search ends, and what it returns are cycles.
use ai_agent_code.Common.{
  ℕ, zero, suc, ◌<◌, ◌≡◌, inl, inr, refl, some, List, [], ◌∷◌, ◌++◌, arith, String, elem, length,
  All, Bool-cases, string_key, nat_key,
}
use ai_agent_code.Agents.Deadlock.{Graph, neighbors, from_first, Search, keys, find_cycles}
use ai_agent_code.Agents.Deadlock.Graph.{unvisited, unvisited-length, length-keys}
use ai_agent_code.Agents.Deadlock.Returns.{
  Returns, visit, find, stop-Returns, found-Returns, visited-Returns, deeper-Returns,
}
use ai_agent_code.Agents.Deadlock.Cycles.{
  IsWalk, IsCycle, IsAhead, AreCycles, from_first-IsCycle, neighbors-IsAhead, All-append,
}

dfs-AreCycles :
    (fuel : ℕ) (g : Graph) (path agents : List String) (s : Search)
    → unvisited s.visited (keys g) < fuel
    → IsAhead g path agents
    → AreCycles g s
    → Returns fuel g path agents s (AreCycles g)
unfolding IsAhead
dfs-AreCycles fuel g path [] s h w c = stop-Returns fuel g path [] s (AreCycles g) refl c
dfs-AreCycles zero g path (a ∷ agents) s h w c = absurd (omega arith)
dfs-AreCycles (suc fuel) g path (a ∷ agents) s h w c = elim (Bool-cases (elem a path)) [
  | inl p ↦
      let cycle = from_first a path ++ a ∷ [] in
      let c' =
        All-append (IsCycle g) s.cycles cycle (unfold AreCycles in c)
          (from_first-IsCycle g a path p w.0) in
      found-Returns fuel g path agents a s (AreCycles g) p
        (dfs-AreCycles (suc fuel) g path agents (find s cycle) h w.1 (unfold AreCycles in c'))
  | inr p ↦ elim (Bool-cases (elem a s.visited)) [
    | inl v ↦
        visited-Returns fuel g path agents a s (AreCycles g) p v
          (dfs-AreCycles (suc fuel) g path agents s h w.1 c)
    | inr v ↦
        let ahead = neighbors-IsAhead g path a (neighbors g a) w.0 (λ b e. e) in
        let c' : AreCycles g (visit s a) = unfold AreCycles in c in
        deeper-Returns fuel g path agents a s (AreCycles g) (AreCycles g) p v h
          (λ h'. dfs-AreCycles fuel g (path ++ a ∷ []) (neighbors g a) (visit s a) h' ahead c')
          (λ _. c') (λ s' h' q. dfs-AreCycles (suc fuel) g path agents s' h' w.1 q)
  ]
]

start-IsAhead : (g : Graph) (agents : List String) → IsAhead g [] agents
unfolding IsAhead IsWalk
start-IsAhead g [] = tt
start-IsAhead g (a ∷ agents) = (tt, start-IsAhead g agents)

-- The search for cycles ends: a depth of one more than the agents that wait is enough for it. Each
-- list that it returns is a cycle: a walk of at least one step in which each agent waits on the next
-- and the last is the first.
pub find_cycles-AreCycles :
    (g : Graph)
    → (cs : List (List String)) × (find_cycles (suc (length g)) g ≡ some cs) × All (IsCycle g) cs
unfolding find_cycles AreCycles Returns
find_cycles-AreCycles g =
    let s : Search = record { visited = []; cycles = [] } in
    let (s', e, le, c) =
      dfs-AreCycles (suc (length g)) g [] (keys g) s
        (omega (arith, unvisited-length [] (keys g), length-keys g)) (start-IsAhead g (keys g))
        tt in
    (s'.cycles, rw (find_cycles, e) refl, c)
