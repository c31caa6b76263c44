-- ===== src/Agents/Deadlock/Valid.antt =====
-- src/agents/communication/deadlock.py: the graph stays justified when cycles are resolved.
use ai_agent_code.Common.Dict
use ai_agent_code.Common.Dict.{Dict}
use ai_agent_code.Common.Unique.{AreUnique, erase-AreUnique}
use ai_agent_code.Common.{
  subst, ◌+◌, ◌≡◌, ◌⊎◌, inl, inr, refl, sym, Option, none, some, List, [], ◌∷◌, arith, String,
  if◌then◌else◌, Bool-cases, Option-cases, string_key, nat_key,
}
use ai_agent_code.Agents.Deadlock.{
  Graph, DependencyEdge, DeadlockDetector, neighbors, discard_edge, oldest, resolve_cycle, report,
}
use ai_agent_code.Agents.Deadlock.Pending.{IsJustified, discard-AreEdges}

-- The dependencies have an identifier each, and each edge of the graph is pending.
unfoldable pub IsValid : DeadlockDetector → Type 0
IsValid d = AreUnique d.dependencies × IsJustified d

-- What a search among dependencies found stands there.
unfoldable pub IsFound : Dict String DependencyEdge → Option (String × DependencyEdge) → Type 0
IsFound deps none = Unit
IsFound deps (some (id, dep)) = Dict.lookup id deps ≡ some dep

next-IsFound :
    (j : String) (e : DependencyEdge) (deps : Dict String DependencyEdge)
    (o : Option (String × DependencyEdge))
    → Dict.lookup j deps ≡ none
    → IsFound deps o
    → IsFound ((j, e) ∷ deps) o
unfolding IsFound
next-IsFound j e deps none n f = tt
next-IsFound j e deps (some (id, dep)) n f = ground (arith, n, f, string_key.same_iff id j)

oldest-cases :
    (cycle : List String) (j : String) (e : DependencyEdge) (deps : Dict String DependencyEdge)
    → (oldest cycle ((j, e) ∷ deps) ≡ oldest cycle deps)
      ⊎ (oldest cycle ((j, e) ∷ deps) ≡ some (j, e))
unfolding oldest
oldest-cases cycle j e deps = elim (Option-cases (oldest cycle deps)) [
  | inl n ↦ ground (arith, n)
  | inr ((k, x), n) ↦ ground (arith, n)
]

oldest-IsFound :
    (cycle : List String) (deps : Dict String DependencyEdge)
    → AreUnique deps
    → IsFound deps (oldest cycle deps)
unfolding AreUnique
oldest-IsFound cycle [] u = unfold IsFound in unfold oldest in tt
oldest-IsFound cycle ((j, e) ∷ deps) u = elim (oldest-cases cycle j e deps) [
  | inl p ↦
      subst (IsFound ((j, e) ∷ deps)) (sym p)
        (next-IsFound j e deps (oldest cycle deps) u.0 (oldest-IsFound cycle deps u.1))
  | inr p ↦
      subst (IsFound ((j, e) ∷ deps)) (sym p)
        (unfold IsFound in ground (arith, string_key.same_iff j j))
]

-- Nothing is discarded for an agent that waits on nobody.
discard-missing : (g : Graph) (a b : String) → Dict.lookup a g ≡ none → discard_edge g a b ≡ g
unfolding discard_edge neighbors
discard-missing g a b e = rw (discard_edge, neighbors, e) (Dict.erase-missing a g e)

guarded-discard :
    (g : Graph) (a b : String)
    → (if Dict.contains a g then discard_edge g a b else g) ≡ discard_edge g a b
guarded-discard g a b = elim (Bool-cases (Dict.contains a g)) [
  | inl c ↦ rw c refl
  | inr c ↦ rw c (sym (discard-missing g a b (ground (arith, c))))
]

resolve_cycle-IsValid :
    (d : DeadlockDetector) (cycle : List String) → IsValid d → IsValid (resolve_cycle d cycle)
unfolding IsValid resolve_cycle
resolve_cycle-IsValid d cycle (u, j) = elim (Option-cases (oldest cycle d.dependencies)) [
  | inl e ↦ rw (resolve_cycle, e) (u, j)
  | inr ((id, dep), e) ↦
      let l : Dict.lookup id d.dependencies ≡ some dep =
        unfold IsFound in
        subst (IsFound d.dependencies) e (oldest-IsFound cycle d.dependencies u) in
      rw (resolve_cycle, e, guarded-discard d.agent_waiting_on dep.from_agent dep.to_agent)
        (
          erase-AreUnique id d.dependencies u,
          unfold IsJustified in
              discard-AreEdges d.dependencies d.agent_waiting_on id dep l (unfold IsJustified in j),
        )
]

pub report-IsValid :
    (d : DeadlockDetector) (cycles : List (List String)) → IsValid d → IsValid (report d cycles)
unfolding report
report-IsValid d [] v = v
report-IsValid d (cycle ∷ cycles) v =
    let d' : DeadlockDetector = record d { deadlock_count = d.deadlock_count + 1 } in
    let v' : IsValid d' = unfold IsValid in unfold IsJustified in v in
    let c : IsValid (if d.auto_resolve then resolve_cycle d' cycle else d') =
      elim (Bool-cases d.auto_resolve) [
        | inl b ↦
            subst (λ x. IsValid (if x then resolve_cycle d' cycle else d')) (sym b)
              (resolve_cycle-IsValid d' cycle v')
        | inr b ↦ subst (λ x. IsValid (if x then resolve_cycle d' cycle else d')) (sym b) v'
      ] in
    report-IsValid (if d.auto_resolve then resolve_cycle d' cycle else d') cycles c
