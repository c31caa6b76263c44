-- ===== src/Harness/Transaction/Compensation.antt =====
-- src/harness/transaction.py: an aborted transaction restores the world.
use ai_agent_code.Common.{
  ◌≡◌, ◌⊎◌, inl, inr, refl, ap, Bool, true, none, some, List, [], ◌∷◌, ◌++◌, reverse, arith, String,
  All, string_key, nat_key,
}
use mathlib.Core.List.{append-nil, reverse-cons}
use ai_agent_code.Harness.Transaction.{
  Operation, TransactionManager, aborted, roll_back, roll_back_all, abort, names,
}

module _ {W A : Type 0} where
  -- The world after the effects of some steps, in order.
  pub perform : List (Operation W A × (W → W)) → W → W
  perform [] w = w
  perform ((op, effect) ∷ steps) w = perform steps (effect w)

  unfoldable pub operations_of : List (Operation W A × (W → W)) → List (Operation W A)
  operations_of [] = []
  operations_of ((op, effect) ∷ steps) = op ∷ operations_of steps

  -- The step has no effect and no undo, or an undo that reverts the effect.
  unfoldable pub Reverts : Operation W A × (W → W) → Type 0
  Reverts (op, effect) =
      (w : W)
      → ((effect w ≡ w) × (op.undo ≡ none))
        ⊎ ((undo : A → W → W × Bool) × (op.undo ≡ some undo)
            × (op.undo_supported ≡ true)
            × (undo op.args (effect w) ≡ (w, true)))

  -- The names of the operations that can be undone.
  pub undone : List (Operation W A) → List String
  undone [] = []
  undone (op ∷ ops) = elim op.undo [ none ↦ undone ops | some _ ↦ op.name ∷ undone ops ]

  roll_back_all-append :
      (xs ys : List (Operation W A)) (r : W × List String)
      → roll_back_all (xs ++ ys) r ≡ roll_back_all ys (roll_back_all xs r)
  unfolding roll_back_all
  roll_back_all-append [] ys r = refl
  roll_back_all-append (x ∷ xs) ys r = roll_back_all-append xs ys (roll_back x r)

  undone-append : (xs ys : List (Operation W A)) → undone (xs ++ ys) ≡ undone xs ++ undone ys
  unfolding undone
  undone-append [] ys = refl
  undone-append (x ∷ xs) ys = ground (arith, undone-append xs ys)

  roll_back-Reverts :
      (op : Operation W A) (effect : W → W) (w : W) (names : List String)
      → Reverts (op, effect)
      → roll_back op (effect w, names) ≡ (w, names ++ undone (op ∷ []))
  unfolding Reverts roll_back undone
  roll_back-Reverts op effect w names h = elim (h w) [
    | inl (e, n) ↦ grind (arith, append-nil names)
    | inr (undo, e, s, u) ↦ ground arith
  ]

  undone-reverse_snoc :
      (op : Operation W A) (ops : List (Operation W A))
      → undone (reverse (op ∷ ops)) ≡ undone (reverse ops) ++ undone (op ∷ [])
  undone-reverse_snoc op ops = rw (reverse-cons op ops) (undone-append (reverse ops) (op ∷ []))

  roll_back_all-Reverts :
      (steps : List (Operation W A × (W → W))) (w : W)
      → All Reverts steps
      → roll_back_all (reverse (operations_of steps)) (perform steps w, [])
        ≡ (w, undone (reverse (operations_of steps)))
  unfolding perform operations_of roll_back_all
  roll_back_all-Reverts [] w h = unfold undone in refl
  roll_back_all-Reverts ((op, effect) ∷ steps) w h =
      rw
        (
          reverse-cons op (operations_of steps),
          roll_back_all-append (reverse (operations_of steps)) (op ∷ [])
              (perform steps (effect w), []),
          roll_back_all-Reverts steps (effect w) h.1,
          undone-append (reverse (operations_of steps)) (op ∷ []),
        )
        (roll_back-Reverts op effect w (undone (reverse (operations_of steps))) h.0)

  -- If each step of a transaction has no effect and no undo, or an undo that is supported and
  -- reverts its effect, then aborting after the steps restores the world, and the result names
  -- the operations that have an undo, the last first.
  pub abort-restores :
      (t : TransactionManager W A) (steps : List (Operation W A × (W → W))) (w : W)
      → t.operations ≡ operations_of steps
      → All Reverts steps
      → let (t', w', result) = abort t (perform steps w) in
        (w' ≡ w) × (result.applied ≡ undone (reverse t.operations)) × (t'.status ≡ aborted)
  unfolding abort
  abort-restores t steps w e h =
      let r = roll_back_all-Reverts steps w h in
      rw e (ap (λ (p : W × List String). p.0) r, ap (λ (p : W × List String). p.1) r, refl)
