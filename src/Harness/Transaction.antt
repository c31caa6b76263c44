-- ===== src/Harness/Transaction.antt =====
-- src/harness/transaction.py: `TransactionManager`, the business transaction of one agent run.
-- An undo is a function of the state of the world: it gives the new state, and false when it raises.
-- The caller sets `undo` and `undo_supported` on the operation that `prepare` returns.
mod Compensation
mod Tests
use ai_agent_code.Common.{
  ℕ, zero, suc, ◌+◌, ◌-◌, ◌*◌, ◌≤◌, ◌<◌, min, max, ◌≡◌, ◌≢◌, ◌⊎◌, ◌↔◌, inl, inr, refl, sym, ap, ◌∙◌,
  Bool, true, false, not, ◌&&◌, ◌||◌, Option, none, some, List, [], ◌∷◌, ◌++◌, map, reverse, arith,
  String, if◌then◌else◌, leb, ltb, ◌==◌, ◌≟◌, elem, length, drop, keep, count, get_last?,
  slice_last, All, Bool-cases, Option-cases, Key, string_key, nat_key,
}

pub record Operation (W A : Type 0) : Type 0 where
  pub name : String
  pub args : A
  pub undo : Option (A → W → W × Bool)
  pub undo_supported : Bool

pub data Status : Type 0 where
  prepared committed aborted : Status

pub record TransactionResult : Type 0 where
  pub transaction_id : String
  pub status : Status
  pub applied : List String

pub record TransactionManager (W A : Type 0) : Type 0 where
  pub transaction_id : String
  pub operations : List (Operation W A)
  pub status : Status

module _ {W A : Type 0} where
  -- `__init__`, with the identifier that the caller or `uuid4` gives.
  pub init : String → TransactionManager W A
  init id = record { transaction_id = id; operations = []; status = prepared }

  -- `prepare`
  pub prepare : TransactionManager W A → String → A → TransactionManager W A × Operation W A
  prepare t name args =
      let op : Operation W A = record {
        name = name;
        args = args;
        undo = none;
        undo_supported = false;
      } in
      (record t { operations = t.operations ++ op ∷ [] }, op)

  names : List (Operation W A) → List String
  names [] = []
  names (op ∷ ops) = op.name ∷ names ops

  -- `commit`
  pub commit : TransactionManager W A → TransactionManager W A × TransactionResult
  unfolding names
  commit t = (
    record t { status = committed },
    record { transaction_id = t.transaction_id; status = committed; applied = names t.operations },
  )

  -- One round of `abort`: the operation is undone, if it can be, and named if that succeeds.
  pub roll_back : Operation W A → W × List String → W × List String
  roll_back op (w, rolled_back) = elim op.undo [
    | none ↦ (w, rolled_back)
    | some undo ↦
        let (w', ok) = undo op.args w in
        if op.undo_supported
        then (if ok then (w', rolled_back ++ op.name ∷ []) else (w', rolled_back))
        else (w, rolled_back)
  ]

  pub roll_back_all : List (Operation W A) → W × List String → W × List String
  unfolding roll_back
  roll_back_all [] r = r
  roll_back_all (op ∷ ops) r = roll_back_all ops (roll_back op r)

  -- `abort`
  pub abort : TransactionManager W A → W → TransactionManager W A × W × TransactionResult
  unfolding roll_back_all
  abort t w =
      let (w', rolled_back) = roll_back_all (reverse t.operations) (w, []) in
      (
        record t { status = aborted },
        w',
        record { transaction_id = t.transaction_id; status = aborted; applied = rolled_back },
      )

  pub operation_count : TransactionManager W A → ℕ
  operation_count t = length t.operations
