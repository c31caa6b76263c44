-- ===== src/Mcp/Approval.antt =====
-- src/mcp/approval.py: `ApprovalGate`, the requests that wait for the user's decision.
-- Times are seconds, passed to each call. The identifier that `uuid4` gives, cut to 8 characters, is an
-- argument of `request`; the message and the arguments of the tool are a value of the type `A`.
mod Decisions
mod Tests
use ai_agent_code.Common.Dict
use ai_agent_code.Common.Dict.{Dict}
use ai_agent_code.Common.{
  ℕ, zero, suc, ◌+◌, ◌-◌, ◌*◌, ◌≤◌, ◌<◌, min, max, ◌≡◌, ◌≢◌, ◌⊎◌, ◌↔◌, inl, inr, refl, sym, ap, ◌∙◌,
  Bool, true, false, not, ◌&&◌, ◌||◌, Option, none, some, List, [], ◌∷◌, ◌++◌, map, reverse, arith,
  String, if◌then◌else◌, leb, ltb, ◌==◌, ◌≟◌, elem, length, drop, keep, count, get_last?,
  slice_last, All, Bool-cases, Option-cases, Key, string_key, nat_key,
}

pub data Status : Type 0 where
  pending approved rejected timeout : Status

pub record ApprovalRequest (A : Type 0) : Type 0 where
  pub request_id : String
  pub tool_name : String
  pub arguments : A
  pub created_at : ℕ
  pub status : Status
  pub decided_at : Option ℕ

pub record ApprovalGate (A : Type 0) : Type 0 where
  pub timeout_seconds : ℕ
  pub waiting : Dict String (ApprovalRequest A)
  pub decided : List (ApprovalRequest A)

abbrev pub same_status : Status → Status → Bool
same_status pending pending = true
same_status approved approved = true
same_status rejected rejected = true
same_status timeout timeout = true
same_status s t = false

-- What the other tasks do while the waiting one sleeps.
pub data Other (A : Type 0) : Type 0 where
  requests : String → String → A → ℕ → Other A
  approves rejects : String → ℕ → Other A
  expires : String → ℕ → Other A

module _ {A : Type 0} where
  pub init : ℕ → ApprovalGate A
  init seconds = record { timeout_seconds = seconds; waiting = []; decided = [] }

  -- `request`
  pub request : ApprovalGate A → String → String → A → ℕ → ApprovalGate A
  request g id tool arguments now = record g {
    waiting =
        Dict.insert id
          (record {
            request_id = id;
            tool_name = tool;
            arguments = arguments;
            created_at = now;
            status = pending;
            decided_at = none;
          })
          g.waiting;
  }

  -- `approve`, `reject`, and the end of `wait_for_decision`: a pending request is decided and moves
  -- to the history.
  pub decide : ApprovalGate A → String → Status → ℕ → ApprovalGate A × Bool
  decide g id status now = elim (Dict.lookup id g.waiting) [
    | none ↦ (g, false)
    | some r ↦ (
      record g {
        waiting = Dict.erase id g.waiting;
        decided = g.decided ++ record r { status = status; decided_at = some now } ∷ [];
      },
      true,
    )
  ]

  pub approve : ApprovalGate A → String → ℕ → ApprovalGate A × Bool
  unfolding decide
  approve g id now = decide g id approved now

  pub reject : ApprovalGate A → String → ℕ → ApprovalGate A × Bool
  unfolding decide
  reject g id now = decide g id rejected now

  -- The first decided request with an identifier.
  pub find_decided : String → List (ApprovalRequest A) → Option (ApprovalRequest A)
  find_decided id [] = none
  find_decided id (r ∷ rs) = if r.request_id ≟ id then some r else find_decided id rs

  -- One round of the loop of `wait_for_decision`: an answer, or `none` for another round.
  pub poll : ApprovalGate A → String → Option Bool
  unfolding find_decided
  poll g id = elim (Dict.lookup id g.waiting) [
    | none ↦ elim (find_decided id g.decided) [
      | none ↦ some false
      | some r ↦ some (same_status r.status approved)
    ]
    | some r ↦
        if same_status r.status approved
        then some true
        else if same_status r.status rejected
        then some false
        else none
  ]

  -- The end of `wait_for_decision`, once the deadline has passed.
  pub expire : ApprovalGate A → String → ℕ → ApprovalGate A × Bool
  unfolding decide
  expire g id now = ((decide g id timeout now).0, false)

  pub act : ApprovalGate A → Other A → ApprovalGate A
  unfolding request approve reject expire
  act g (requests id tool arguments now) = request g id tool arguments now
  act g (approves id now) = (approve g id now).0
  act g (rejects id now) = (reject g id now).0
  act g (expires id now) = (expire g id now).0

  pub act_all : ApprovalGate A → List (Other A) → ApprovalGate A
  unfolding act
  act_all g [] = g
  act_all g (o ∷ os) = act_all (act g o) os

  -- `wait_for_decision`: the loop, with the time of each round and what the other tasks do in the
  -- sleep after it; the rounds end with the one that is past the deadline, at the time `over`.
  pub wait_for_decision :
      ApprovalGate A → String → List (List (Other A)) → ℕ → ApprovalGate A × Bool
  unfolding poll act_all expire
  wait_for_decision g id [] over = expire g id over
  wait_for_decision g id (sleep ∷ rounds) over =
      let rest = wait_for_decision (act_all g sleep) id rounds over in
      elim (poll g id) [ none ↦ rest | some answer ↦ (g, answer) ]

  -- `stats`: the number of those that wait, and for another status of those decided.
  pub stats : ApprovalGate A → Status → ℕ
  stats g pending = length g.waiting
  stats g approved = count (λ r. same_status r.status approved) g.decided
  stats g rejected = count (λ r. same_status r.status rejected) g.decided
  stats g timeout = count (λ r. same_status r.status timeout) g.decided
