-- ===== src/Mcp/Approval/Decisions.antt =====
-- src/mcp/approval.py: an answer of yes needs an approval, and a decision is final.
use ai_agent_code.Common.Dict
use ai_agent_code.Common.Dict.{Dict}
use ai_agent_code.Common.{
  subst, ℕ, ◌≡◌, inl, inr, refl, sym, ap, ◌∙◌, Bool, true, false, ◌&&◌, ◌||◌, Option, none, some,
  List, [], ◌∷◌, ◌++◌, arith, String, ◌≟◌, All, Bool-cases, Option-cases, string_key, nat_key,
}
use mathlib.Core.List.{append-nil, append_assoc}
use ai_agent_code.Mcp.Approval.{
  Status, pending, approved, rejected, timeout, ApprovalRequest, ApprovalGate, same_status, request,
  decide, approve, reject, find_decided, poll, expire, Other, requests, approves, rejects, expires,
  act, act_all, wait_for_decision,
}

module _ {A : Type 0} where
  -- A request waits under its own identifier, undecided.
  unfoldable pub IsWaiting : String × ApprovalRequest A → Type 0
  IsWaiting (id, r) = (r.status ≡ pending) × (r.request_id ≡ id)

  unfoldable pub IsValid : ApprovalGate A → Type 0
  IsValid g = All IsWaiting g.waiting

  -- Whether a history approves an identifier.
  pub approves_in : String → List (ApprovalRequest A) → Bool
  approves_in id [] = false
  approves_in id (r ∷ rs) = r.request_id ≟ id && same_status r.status approved || approves_in id rs

  insert-IsWaiting :
      (id : String) (r : ApprovalRequest A) (d : Dict String (ApprovalRequest A))
      → IsWaiting (id, r)
      → All IsWaiting d
      → All IsWaiting (Dict.insert id r d)
  insert-IsWaiting id r [] w a = (w, tt)
  insert-IsWaiting id r ((j, s) ∷ d) w a = elim (Bool-cases (id ≟ j)) [
    | inl e ↦ rw e (w, a.1)
    | inr e ↦ rw e (a.0, insert-IsWaiting id r d w a.1)
  ]

  erase-IsWaiting :
      (id : String) (d : Dict String (ApprovalRequest A))
      → All IsWaiting d
      → All IsWaiting (Dict.erase id d)
  erase-IsWaiting id [] a = tt
  erase-IsWaiting id ((j, s) ∷ d) a = elim (Bool-cases (id ≟ j)) [
    | inl e ↦ rw e (erase-IsWaiting id d a.1)
    | inr e ↦ rw e (a.0, erase-IsWaiting id d a.1)
  ]

  decide-IsValid :
      (g : ApprovalGate A) (id : String) (s : Status) (now : ℕ)
      → IsValid g
      → IsValid (decide g id s now).0
  unfolding IsValid decide
  decide-IsValid g id s now v = elim (Option-cases (Dict.lookup id g.waiting)) [
    | inl e ↦ rw (decide, e) v
    | inr (r, e) ↦ rw (decide, e) (erase-IsWaiting id g.waiting v)
  ]

  act-IsValid : (g : ApprovalGate A) (o : Other A) → IsValid g → IsValid (act g o)
  unfolding act approve reject expire
  act-IsValid g (requests id tool arguments now) v =
      unfold IsValid in
      unfold request in insert-IsWaiting id _ g.waiting (unfold IsWaiting in (refl, refl)) v
  act-IsValid g (approves id now) v = decide-IsValid g id approved now v
  act-IsValid g (rejects id now) v = decide-IsValid g id rejected now v
  act-IsValid g (expires id now) v = decide-IsValid g id timeout now v

  act_all-IsValid : (g : ApprovalGate A) (os : List (Other A)) → IsValid g → IsValid (act_all g os)
  unfolding act_all
  act_all-IsValid g [] v = v
  act_all-IsValid g (o ∷ os) v = act_all-IsValid (act g o) os (act-IsValid g o v)

  lookup-pending :
      (id : String) (d : Dict String (ApprovalRequest A)) (r : ApprovalRequest A)
      → All IsWaiting d
      → Dict.lookup id d ≡ some r
      → r.status ≡ pending
  unfolding IsWaiting
  lookup-pending id [] r a e = absurd (cc)
  lookup-pending id ((j, s) ∷ d) r a e = elim (Bool-cases (id ≟ j)) [
    | inl t ↦
        let q : ◌≡◌ {A = Option (ApprovalRequest A)} (some s) (some r) = ground arith in
        let same : s ≡ r = cc in subst (λ (x : ApprovalRequest A). x.status ≡ pending) same a.0.0
    | inr t ↦ lookup-pending id d r a.1 (ground arith)
  ]

  find_decided-approves_in :
      (id : String) (rs : List (ApprovalRequest A)) (r : ApprovalRequest A)
      → find_decided id rs ≡ some r
      → same_status r.status approved ≡ true
      → approves_in id rs ≡ true
  unfolding find_decided approves_in
  find_decided-approves_in id [] r e s = absurd (cc)
  find_decided-approves_in id (x ∷ rs) r e s = ground (arith, find_decided-approves_in id rs r)

  poll-status :
      (g : ApprovalGate A) (id : String) (r : ApprovalRequest A)
      → Dict.lookup id g.waiting ≡ none
      → find_decided id g.decided ≡ some r
      → poll g id ≡ some true
      → same_status r.status approved ≡ true
  unfolding poll
  poll-status g id r n f e =
      let q : some (same_status r.status approved) ≡ some true = ground arith in cc

  poll-none :
      (g : ApprovalGate A) (id : String) (r : ApprovalRequest A)
      → Dict.lookup id g.waiting ≡ some r
      → r.status ≡ pending
      → poll g id ≡ none
  unfolding poll
  poll-none g id r n p = rw (poll, n, p) refl

  poll-approved :
      (g : ApprovalGate A) (id : String)
      → IsValid g
      → poll g id ≡ some true
      → approves_in id g.decided ≡ true
  unfolding IsValid poll
  poll-approved g id v e = elim (Option-cases (Dict.lookup id g.waiting)) [
    | inl n ↦ elim (Option-cases (find_decided id g.decided)) [
      | inl f ↦ absurd (let q : ◌≡◌ {A = Option Bool} (some false) (some true) = ground arith in cc)
      | inr (r, f) ↦ find_decided-approves_in id g.decided r f (poll-status g id r n f e)
    ]
    | inr (r, n) ↦ absurd (
        let p = lookup-pending id g.waiting r v n in
        let q : ◌≡◌ {A = Option Bool} none (some true) = rw⁻¹ (poll-none g id r n p) e in cc)
  ]

  wait-again :
      (g : ApprovalGate A) (id : String) (sleep : List (Other A)) (rounds : List (List (Other A)))
      (over : ℕ)
      → poll g id ≡ none
      → wait_for_decision g id (sleep ∷ rounds) over
        ≡ wait_for_decision (act_all g sleep) id rounds over
  unfolding wait_for_decision
  wait-again g id sleep rounds over n = rw (wait_for_decision, n) refl

  wait-answer :
      (g : ApprovalGate A) (id : String) (sleep : List (Other A)) (rounds : List (List (Other A)))
      (over : ℕ) (answer : Bool)
      → poll g id ≡ some answer
      → wait_for_decision g id (sleep ∷ rounds) over ≡ (g, answer)
  unfolding wait_for_decision
  wait-answer g id sleep rounds over answer n = rw (wait_for_decision, n) refl

  -- Someone who waits for a decision is told yes only if the history has an approved request with
  -- that identifier by then, whatever the other tasks do meanwhile; a gate whose requests wait
  -- under their own identifiers, undecided.
  pub wait_for_decision-approved :
      (g : ApprovalGate A) (id : String) (rounds : List (List (Other A))) (over : ℕ)
      → IsValid g
      → let (g', answer) = wait_for_decision g id rounds over in
        answer ≡ true → approves_in id g'.decided ≡ true
  unfolding wait_for_decision expire
  wait_for_decision-approved g id [] over v e = absurd (cc)
  wait_for_decision-approved g id (sleep ∷ rounds) over v e = elim (Option-cases (poll g id)) [
    | inl n ↦ rw (wait-again g id sleep rounds over n) (
        wait_for_decision-approved (act_all g sleep) id rounds over (act_all-IsValid g sleep v)
          (rw⁻¹ (wait-again g id sleep rounds over n) e))
    | inr (answer, n) ↦
        let w = wait-answer g id sleep rounds over answer n in
        let yes : answer ≡ true = sym (ap (λ (p : ApprovalGate A × Bool). p.1) w) ∙ e in
        rw w (poll-approved g id v (rw n (ap some yes)))
  ]

  decide-keeps :
      (g : ApprovalGate A) (id : String) (s : Status) (now : ℕ)
      → (new : List (ApprovalRequest A)) × ((decide g id s now).0.decided ≡ g.decided ++ new)
  unfolding decide
  decide-keeps g id s now = elim (Option-cases (Dict.lookup id g.waiting)) [
    | inl e ↦ ([], rw (decide, e) (sym (append-nil g.decided)))
    | inr (r, e) ↦ (record r { status = s; decided_at = some now } ∷ [], rw (decide, e) refl)
  ]

  act-keeps :
      (g : ApprovalGate A) (o : Other A)
      → (new : List (ApprovalRequest A)) × ((act g o).decided ≡ g.decided ++ new)
  unfolding act approve reject expire request
  act-keeps g (requests id tool arguments now) = ([], sym (append-nil g.decided))
  act-keeps g (approves id now) = decide-keeps g id approved now
  act-keeps g (rejects id now) = decide-keeps g id rejected now
  act-keeps g (expires id now) = decide-keeps g id timeout now

  -- A decision is final: whatever is called afterwards only adds to the history.
  pub act_all-keeps :
      (g : ApprovalGate A) (os : List (Other A))
      → (new : List (ApprovalRequest A)) × ((act_all g os).decided ≡ g.decided ++ new)
  unfolding act_all
  act_all-keeps g [] = ([], sym (append-nil g.decided))
  act_all-keeps g (o ∷ os) =
      let first = act-keeps g o in
      let rest = act_all-keeps (act g o) os in
      (first.0 ++ rest.0, rest.1 ∙ rw first.1 (append_assoc g.decided first.0 rest.0))

  lookup-erased :
      (g : ApprovalGate A) (id : String) (s : Status) (now : ℕ)
      → Dict.lookup id (decide g id s now).0.waiting ≡ none
  unfolding decide
  lookup-erased g id s now = elim (Option-cases (Dict.lookup id g.waiting)) [
    | inl e ↦ rw (decide, e) e
    | inr (r, e) ↦ rw (decide, e) (Dict.lookup-erase_self id g.waiting)
  ]

  decide-twice :
      (g : ApprovalGate A) (id : String) (s : Status) (now : ℕ)
      → Dict.lookup id g.waiting ≡ none
      → decide g id s now ≡ (g, false)
  unfolding decide
  decide-twice g id s now e = rw (decide, e) refl

  -- A request that was approved, rejected or timed out can be decided no more: a later approval or
  -- rejection of it fails and changes nothing.
  pub decide-final :
      (g : ApprovalGate A) (id : String) (s : Status) (t now : ℕ)
      → let g' = (decide g id s t).0 in
        (approve g' id now ≡ (g', false)) × (reject g' id now ≡ (g', false))
  unfolding approve reject
  decide-final g id s t now =
      let e = lookup-erased g id s t in
      (decide-twice _ id approved now e, decide-twice _ id rejected now e)
