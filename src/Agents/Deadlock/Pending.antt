-- ===== src/Agents/Deadlock/Pending.antt =====
-- src/agents/communication/deadlock.py: who waits on whom, and the requests that are pending.
use ai_agent_code.Common.Dict
use ai_agent_code.Common.Dict.{Dict}
use ai_agent_code.Common.{
  ℕ, ◌≡◌, inl, inr, sym, ap, ◌∙◌, true, false, ◌&&◌, none, some, List, [], ◌∷◌, arith, String, ◌≟◌,
  elem, Bool-cases, Option-cases, string_key, nat_key,
}
use ai_agent_code.Agents.Deadlock.{
  Graph, DependencyEdge, AgentMessage, DeadlockDetector, neighbors, add_edge, discard_edge,
  track_request, drop_dependency, resolve_dependency, drop_all,
}
use ai_agent_code.Agents.Deadlock.Edges.{neighbors-add_edge, neighbors-discard_edge}

-- An edge is pending: there is a dependency for it.
unfoldable pub IsPending : Dict String DependencyEdge → String → String → Type 0
IsPending deps a b =
    (id : String) × (dep : DependencyEdge) × (Dict.lookup id deps ≡ some dep)
    × (dep.from_agent ≡ a)
    × (dep.to_agent ≡ b)

insert-IsPending :
    (deps : Dict String DependencyEdge) (id : String) (dep : DependencyEdge) (a b : String)
    → Dict.lookup id deps ≡ none
    → IsPending deps a b
    → IsPending (Dict.insert id dep deps) a b
unfolding IsPending
insert-IsPending deps id dep a b n (j, e, l, f, t) =
    (j, e, ground (arith, Dict.lookup-insert j id dep deps, string_key.same_iff j id), f, t)

erase-IsPending :
    (deps : Dict String DependencyEdge) (id : String) (dep : DependencyEdge) (a b : String)
    → Dict.lookup id deps ≡ some dep
    → (a ≟ dep.from_agent && (b ≟ dep.to_agent)) ≡ false
    → IsPending deps a b
    → IsPending (Dict.erase id deps) a b
unfolding IsPending
erase-IsPending deps id dep a b l n (j, e, m, f, t) = elim (Bool-cases (j ≟ id)) [
  | inl q ↦
      let r : j ≡ id = ground (arith, string_key.same_iff j id) in
      let same : e ≡ dep = ground (arith, m, l, ap (λ x. Dict.lookup x deps) r) in
      let f' : dep.from_agent ≡ a = ap (λ (x : DependencyEdge). x.from_agent) (sym same) ∙ f in
      let t' : dep.to_agent ≡ b = ap (λ (x : DependencyEdge). x.to_agent) (sym same) ∙ t in
      absurd (
        ground (
          arith,
          n,
          f',
          t',
          string_key.same_iff a dep.from_agent,
          string_key.same_iff b dep.to_agent,
        ))
  | inr q ↦ (j, e, ground (arith, Dict.lookup-erase j id deps), f, t)
]

-- A graph whose edges are pending.
unfoldable pub AreEdges : Dict String DependencyEdge → Graph → Type 0
AreEdges deps g = (a b : String) → elem b (neighbors g a) ≡ true → IsPending deps a b

add-AreEdges :
    (deps : Dict String DependencyEdge) (g : Graph) (id : String) (dep : DependencyEdge)
    → Dict.lookup id deps ≡ none
    → AreEdges deps g
    → AreEdges (Dict.insert id dep deps) (add_edge g dep.from_agent dep.to_agent)
unfolding AreEdges
add-AreEdges deps g id dep n j a b e = elim (Bool-cases (elem b (neighbors g a))) [
  | inl o ↦ insert-IsPending deps id dep a b n (j a b o)
  | inr o ↦
      let k = neighbors-add_edge g dep.from_agent dep.to_agent a b in
      unfold IsPending in
      (
        id,
        dep,
        Dict.lookup-insert_self id dep deps,
        ground (arith, k, e, string_key.same_iff a dep.from_agent),
        ground (arith, k, e, string_key.same_iff b dep.to_agent),
      )
]

pub discard-AreEdges :
    (deps : Dict String DependencyEdge) (g : Graph) (id : String) (dep : DependencyEdge)
    → Dict.lookup id deps ≡ some dep
    → AreEdges deps g
    → AreEdges (Dict.erase id deps) (discard_edge g dep.from_agent dep.to_agent)
unfolding AreEdges
discard-AreEdges deps g id dep l j a b e =
    let k = neighbors-discard_edge g dep.from_agent dep.to_agent a b in
    erase-IsPending deps id dep a b l (ground (arith, k, e)) (j a b (ground (arith, k, e)))

-- Each edge of the graph is pending.
unfoldable pub IsJustified : DeadlockDetector → Type 0
IsJustified d = AreEdges d.dependencies d.agent_waiting_on

pub track_request-IsJustified :
    (d : DeadlockDetector) (m : AgentMessage) (now : ℕ)
    → Dict.lookup m.msg_id d.dependencies ≡ none
    → IsJustified d
    → IsJustified (track_request d m now)
unfolding IsJustified track_request
track_request-IsJustified d m now n j = elim (Bool-cases (m.msg_type ≟ "request")) [
  | inr r ↦ rw (track_request, r) j
  | inl r ↦ rw (track_request, r) (add-AreEdges d.dependencies d.agent_waiting_on m.msg_id _ n j)
]

pub drop_dependency-IsJustified :
    (d : DeadlockDetector) (id : String) → IsJustified d → IsJustified (drop_dependency d id)
unfolding IsJustified drop_dependency
drop_dependency-IsJustified d id j = elim (Option-cases (Dict.lookup id d.dependencies)) [
  | inl e ↦ rw (drop_dependency, e) j
  | inr (dep, e) ↦
      rw (drop_dependency, e) (discard-AreEdges d.dependencies d.agent_waiting_on id dep e j)
]

pub drop_all-IsJustified :
    (d : DeadlockDetector) (ids : List String) → IsJustified d → IsJustified (drop_all d ids)
unfolding drop_all
drop_all-IsJustified d [] j = j
drop_all-IsJustified d (id ∷ ids) j =
    drop_all-IsJustified (drop_dependency d id) ids (drop_dependency-IsJustified d id j)

pub resolve_dependency-IsJustified :
    (d : DeadlockDetector) (m : AgentMessage) → IsJustified d → IsJustified (resolve_dependency d m)
unfolding resolve_dependency
resolve_dependency-IsJustified d m j = elim (Option-cases m.correlation_id) [
  | inl e ↦ rw (resolve_dependency, e) j
  | inr (id, e) ↦ elim (Bool-cases (id ≟ "")) [
    | inl b ↦ rw (resolve_dependency, e, b) j
    | inr b ↦ rw (resolve_dependency, e, b) (drop_dependency-IsJustified d id j)
  ]
]
