-- ===== src/Agents/Deadlock/Complete.antt =====
-- src/agents/communication/deadlock.py: the search finds a cycle whenever there is one.
use ai_agent_code.Common.{
  length-append, ℕ, zero, suc, ◌<◌, ◌≡◌, ◌⊎◌, inl, inr, refl, sym, ap, ◌∙◌, true, ◌||◌, some, List,
  [], ◌∷◌, ◌++◌, arith, String, ◌≟◌, elem, length, Bool-cases, string_key, nat_key,
}
use ai_agent_code.Agents.Deadlock.{Graph, neighbors, from_first, Search, keys, find_cycles}
use ai_agent_code.Agents.Deadlock.Graph.{unvisited, unvisited-length, length-keys, elem-append_one}
use ai_agent_code.Agents.Deadlock.Returns.{
  Returns, visit, find, stop-Returns, map-Returns, found-Returns, visited-Returns, deeper-Returns,
}
use ai_agent_code.Agents.Deadlock.Cycles.{IsCycle}
use ai_agent_code.Agents.Deadlock.Order.{IsIn, IsOrder, order-IsCycle}

unfoldable pub HasCycle : Search → Type 0
HasCycle s = 0 < length s.cycles

find-HasCycle : (s : Search) (c : List String) → HasCycle (find s c)
unfolding HasCycle
find-HasCycle s c = omega (arith, length-append s.cycles (c ∷ []))

-- Once a cycle is found there is one.
dfs-HasCycle :
    (fuel : ℕ) (g : Graph) (path agents : List String) (s : Search)
    → unvisited s.visited (keys g) < fuel
    → HasCycle s
    → Returns fuel g path agents s HasCycle
dfs-HasCycle fuel g path [] s h c = stop-Returns fuel g path [] s HasCycle refl c
dfs-HasCycle zero g path (a ∷ agents) s h c = absurd (omega arith)
dfs-HasCycle (suc fuel) g path (a ∷ agents) s h c = elim (Bool-cases (elem a path)) [
  | inl p ↦
      let cycle = from_first a path ++ a ∷ [] in
      found-Returns fuel g path agents a s HasCycle p
        (dfs-HasCycle (suc fuel) g path agents (find s cycle) h (find-HasCycle s cycle))
  | inr p ↦ elim (Bool-cases (elem a s.visited)) [
    | inl v ↦
        visited-Returns fuel g path agents a s HasCycle p v
          (dfs-HasCycle (suc fuel) g path agents s h c)
    | inr v ↦
        let c' : HasCycle (visit s a) = unfold HasCycle in c in
        deeper-Returns fuel g path agents a s HasCycle HasCycle p v h
          (λ h'. dfs-HasCycle fuel g (path ++ a ∷ []) (neighbors g a) (visit s a) h' c') (λ _. c')
          (λ s' h' q. dfs-HasCycle (suc fuel) g path agents s' h' q)
  ]
]

-- What was visited is on the path or was left, in an order in which agents wait only on those left
-- before.
unfoldable pub IsLeft : Graph → List String → List String → Search → Type 0
IsLeft g path order s =
    IsOrder g order × ((b : String) → elem b s.visited ≡ (elem b path || elem b order))

-- What the search of some agents comes to: a cycle was found, or all the agents were left.
unfoldable pub IsDone : Graph → List String → List String → List String → Search → Type 0
IsDone g path agents order s =
    HasCycle s ⊎ ((left : List String) × IsLeft g path left s × IsIn left order × IsIn left agents)

visit-IsLeft :
    (g : Graph) (path order : List String) (a : String) (s : Search)
    → IsLeft g path order s
    → IsLeft g (path ++ a ∷ []) order (visit s a)
unfolding IsLeft
visit-IsLeft g path order a s (o, v) =
    (o, λ b. ground (arith, v b, elem-append_one b a path, elem-append_one b a s.visited))

-- An agent that is left comes off the path.
leave-IsLeft :
    (g : Graph) (path order : List String) (a : String) (s : Search)
    → IsLeft g (path ++ a ∷ []) order s
    → IsIn order (neighbors g a)
    → IsLeft g path (a ∷ order) s
unfolding IsLeft IsOrder
leave-IsLeft g path order a s (o, v) i =
    ((i, o), λ b. ground (arith, v b, elem-append_one b a path))

cons-IsIn : (a : String) (left order : List String) → IsIn left order → IsIn (a ∷ left) order
unfolding IsIn
cons-IsIn a left order i b e = ground (arith, i b e)

grow-IsDone :
    (g : Graph) (path agents order order' : List String) (a : String) (s : Search)
    → IsIn order' order
    → elem a order' ≡ true
    → IsDone g path agents order' s
    → IsDone g path (a ∷ agents) order s
unfolding IsDone IsIn
grow-IsDone g path agents order order' a s i e (inl c) = inl c
grow-IsDone g path agents order order' a s i e (inr (left, l, m, n)) = inr (
  left,
  l,
  λ b o. m b (i b o),
  λ b o. elim (Bool-cases (b ≟ a)) [
    | inl q ↦
        let r : b ≡ a = ground (arith, string_key.same_iff b a) in ap (λ x. elem x left) r ∙ m a e
    | inr q ↦ n b (ground (arith, o, q))
  ],
)

empty-IsDone :
    (g : Graph) (path agents order : List String) (s : Search)
    → agents ≡ []
    → IsLeft g path order s
    → IsDone g path agents order s
unfolding IsDone IsIn
empty-IsDone g path agents order s n l =
    inr (order, l, λ b e. e, λ b e. absurd (ground (arith, sym e ∙ ap (elem b) n)))

-- With a cycle found, the search of more agents is done.
cycle-IsDone :
    (fuel : ℕ) (g : Graph) (path agents order : List String) (a : String) (s : Search)
    → unvisited s.visited (keys g) < fuel
    → HasCycle s
    → Returns fuel g path agents s (IsDone g path (a ∷ agents) order)
cycle-IsDone fuel g path agents order a s h c =
    map-Returns fuel g path agents s HasCycle (IsDone g path (a ∷ agents) order)
      (λ s' d. unfold IsDone in inl d) (dfs-HasCycle fuel g path agents s h c)

dfs-IsDone :
    (fuel : ℕ) (g : Graph) (path agents order : List String) (s : Search)
    → unvisited s.visited (keys g) < fuel
    → IsLeft g path order s
    → Returns fuel g path agents s (IsDone g path agents order)
unfolding IsDone
dfs-IsDone fuel g path [] order s h l =
    stop-Returns fuel g path [] s (IsDone g path [] order) refl
      (empty-IsDone g path [] order s refl l)
dfs-IsDone zero g path (a ∷ agents) order s h l = absurd (omega arith)
dfs-IsDone (suc fuel) g path (a ∷ agents) order s h l =
    let P = IsDone g path (a ∷ agents) order in
    elim (Bool-cases (elem a path)) [
      | inl p ↦
          let cycle = from_first a path ++ a ∷ [] in
          found-Returns fuel g path agents a s P p
            (cycle-IsDone (suc fuel) g path agents order a (find s cycle) h (find-HasCycle s cycle))
      | inr p ↦ elim (Bool-cases (elem a s.visited)) [
        | inl v ↦
            let i : elem a order ≡ true = unfold IsLeft in ground (arith, l.1 a, p, v) in
            visited-Returns fuel g path agents a s P p v (
              map-Returns (suc fuel) g path agents s (IsDone g path agents order) P
                (λ s' d. grow-IsDone g path agents order order a s' (unfold IsIn in (λ b e. e)) i d)
                (dfs-IsDone (suc fuel) g path agents order s h l))
        | inr v ↦
            let l1 = visit-IsLeft g path order a s l in
            let Q = IsDone g (path ++ a ∷ []) (neighbors g a) order in
            deeper-Returns fuel g path agents a s P Q p v h
              (λ h'. dfs-IsDone fuel g (path ++ a ∷ []) (neighbors g a) order (visit s a) h' l1)
              (λ n. empty-IsDone g (path ++ a ∷ []) (neighbors g a) order (visit s a) n l1)
              (λ s' h' q. elim q [
                | inl c ↦ cycle-IsDone (suc fuel) g path agents order a s' h' c
                | inr (left, m, i, n) ↦
                    map-Returns (suc fuel) g path agents s' (IsDone g path agents (a ∷ left)) P
                      (λ t d.
                        grow-IsDone g path agents order (a ∷ left) a t (cons-IsIn a left order i)
                          (ground (arith, string_key.same_iff a a)) d)
                      (dfs-IsDone (suc fuel) g path agents (a ∷ left) s' h'
                        (leave-IsLeft g path left a s' m n))
              ])
      ]
    ]

some-injective : {A : Type 0} (x y : A) → some x ≡ some y → x ≡ y
some-injective x y e = cc

-- When the search reports no cycle there is none: no agent waits, by way of others or directly, on
-- itself.
pub find_cycles_complete :
    (g : Graph) (c : List String) → find_cycles (suc (length g)) g ≡ some [] → ¬ IsCycle g c
unfolding find_cycles Returns IsDone HasCycle
find_cycles_complete g c f =
    let s : Search = record { visited = []; cycles = [] } in
    let (s', e, le, d) =
      dfs-IsDone (suc (length g)) g [] (keys g) [] s
        (omega (arith, unvisited-length [] (keys g), length-keys g))
        (unfold IsLeft in unfold IsOrder in (tt, λ b. refl)) in
    let r : find_cycles (suc (length g)) g ≡ some s'.cycles = rw (find_cycles, e) refl in
    let none_found : length s'.cycles ≡ 0 = ap length (some-injective s'.cycles [] (sym r ∙ f)) in
    elim d [
      | inl p ↦ absurd (omega (arith, p, none_found))
      | inr (left, l, i, n) ↦ order-IsCycle g left c (unfold IsLeft in l.0) n
    ]
