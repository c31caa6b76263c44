-- ===== src/Harness/Transaction/Tests.antt =====
-- A transaction of two counters, and the theorem at a concrete input.
use ai_agent_code.Common.{
  ℕ, ◌+◌, ◌-◌, ◌≡◌, inl, inr, refl, ap, true, false, none, some, List, [], ◌∷◌, reverse, arith, All,
  string_key, nat_key,
}
use ai_agent_code.Harness.Transaction.{
  Operation, TransactionManager, prepared, aborted, init, prepare, commit, abort, operation_count,
}
use ai_agent_code.Harness.Transaction.Compensation.{
  perform, operations_of, Reverts, undone, abort-restores,
}

-- Adds to the balance, and takes it back.
abbrev add : Operation ℕ ℕ
add = record { name = "add"; args = 5; undo = some (λ n w. (w - n, true)); undo_supported = true }

abbrev look : Operation ℕ ℕ
look = record { name = "look"; args = 0; undo = none; undo_supported = false }

abbrev steps : List (Operation ℕ ℕ × (ℕ → ℕ))
steps = (add, λ w. w + 5) ∷ (look, λ w. w) ∷ []

abbrev begun : TransactionManager ℕ ℕ
begun = record { transaction_id = "t1"; operations = add ∷ look ∷ []; status = prepared }

-- An operation that only `prepare` records is not undone.
audit_only : (abort (prepare (init {W = ℕ} {A = ℕ} "t0") "add" 5).0 7).1 ≡ 7
unfolding abort prepare init
audit_only = refl

counted : operation_count (prepare (init {W = ℕ} {A = ℕ} "t0") "add" 5).0 ≡ 1
unfolding operation_count prepare init
counted = refl

both_named : (commit begun).1.applied ≡ "add" ∷ "look" ∷ []
unfolding commit
both_named = refl

steps-Reverts : All Reverts steps
unfolding Reverts
steps-Reverts = (
  λ w. inr ((λ n u. (u - n, true)), refl, refl, (ap (λ (u : ℕ). (u, true)) (omega arith))),
  (λ w. inl (refl, refl), tt),
)

abort-restores_example :
    let (t', w', result) = abort begun (perform steps 20) in
    (w' ≡ 20) × (result.applied ≡ undone (reverse begun.operations)) × (t'.status ≡ aborted)
abort-restores_example = abort-restores begun steps 20 (unfold operations_of in refl) steps-Reverts
