-- ===== src/Harness/Checkpoint/Retention.antt =====
-- src/harness/checkpoint.py: the store against a log that forgets nothing.
use ai_agent_code.Common.Dict
use ai_agent_code.Common.{
  slice_last-drop, subst, drop-drop, drop-append, length-append, length-drop, ℕ, zero, suc, ◌+◌,
  ◌-◌, ◌≤◌, ◌<◌, max, ◌≡◌, inl, inr, refl, sym, true, false, List, [], ◌∷◌, ◌++◌, arith, String,
  if◌then◌else◌, ltb, ◌≟◌, length, drop, get_last?, slice_last, Bool-cases, string_key, nat_key,
}
use ai_agent_code.Harness.Checkpoint.{
  Snapshot, CheckpointStore, init, history, retain, save, latest, clear, Call, saves, clears, run,
}

module _ {S : Type 0} where
  -- Every snapshot of a task since it was last cleared, in order.
  pub log : String → List (Call S) → List (Snapshot S) → List (Snapshot S)
  log task [] sofar = sofar
  log task (saves s ∷ xs) sofar =
      if task ≟ s.task_id then log task xs (sofar ++ s ∷ []) else log task xs sofar
  log task (clears other ∷ xs) sofar = if task ≟ other then log task xs [] else log task xs sofar

module _ {A : Type 0} where
  -- A list that is cut before each append is as good as one that is cut once.
  slice_last-append :
      (n : ℕ) (xs : List A) (x : A)
      → 0 < n
      → slice_last n (slice_last n xs ++ x ∷ []) ≡ slice_last n (xs ++ x ∷ [])
  slice_last-append n xs x h =
      let k : ℕ = length xs - n in
      let le : length xs - n ≤ length xs = omega arith in
      let m : length xs - n + (length (drop (length xs - n) (xs ++ x ∷ [])) - n)
          ≡ length (xs ++ x ∷ []) - n =
        omega (arith, length-drop (length xs - n) (xs ++ x ∷ []), length-append xs (x ∷ [])) in
      rw
        (
          slice_last-drop n xs h,
          sym (drop-append (length xs - n) xs (x ∷ []) le),
          slice_last-drop n (drop (length xs - n) (xs ++ x ∷ [])) h,
          slice_last-drop n (xs ++ x ∷ []) h,
          drop-drop (length (drop (length xs - n) (xs ++ x ∷ [])) - n) (length xs - n)
              (xs ++ x ∷ []),
          m,
        )
        refl

  get_last?-drop : (n : ℕ) (xs : List A) → n < length xs → get_last? (drop n xs) ≡ get_last? xs
  get_last?-drop zero xs h = refl
  get_last?-drop (suc n) [] h = absurd (omega arith)
  get_last?-drop (suc zero) (x ∷ []) h = absurd (omega arith)
  get_last?-drop (suc (suc n)) (x ∷ []) h = absurd (omega arith)
  get_last?-drop (suc n) (x ∷ y ∷ xs) h = get_last?-drop n (y ∷ xs) (omega arith)

  get_last?-slice_last : (n : ℕ) (xs : List A) → 0 < n → get_last? (slice_last n xs) ≡ get_last? xs
  get_last?-slice_last n [] h = ground arith
  get_last?-slice_last n (x ∷ xs) h =
      rw (slice_last-drop n (x ∷ xs) h)
        (get_last?-drop (length (x ∷ xs) - n) (x ∷ xs) (omega arith))

module _ {S : Type 0} where
  retain-slice_last :
      (n : ℕ) (snaps : List (Snapshot S)) → 0 < n → retain n snaps ≡ slice_last n snaps
  unfolding retain
  retain-slice_last n snaps h = elim (Bool-cases (ltb n (length snaps))) [
    | inl e ↦ rw e refl
    | inr e ↦
        let z : length snaps - n ≡ 0 = ground arith in rw (e, slice_last-drop n snaps h, z) refl
  ]

  save-history :
      (c : CheckpointStore S) (s : Snapshot S) (task : String)
      → 0 < c.max_snapshots_per_task
      → history (save c s) task ≡ (
          if task ≟ s.task_id
          then slice_last c.max_snapshots_per_task (history c s.task_id ++ s ∷ [])
          else history c task)
  unfolding save history
  save-history c s task h = ground (
    arith,
    Dict.lookup-insert task s.task_id
        (retain c.max_snapshots_per_task (history c s.task_id ++ s ∷ [])) c.snapshots,
    retain-slice_last c.max_snapshots_per_task (history c s.task_id ++ s ∷ []) h,
  )

  clear-history :
      (c : CheckpointStore S) (other task : String)
      → history (clear c other) task ≡ (if task ≟ other then [] else history c task)
  unfolding clear history
  clear-history c other task = ground (arith, Dict.lookup-erase task other c.snapshots)

  saved :
      (c : CheckpointStore S) (cap : ℕ) (task : String) (s : Snapshot S) (sofar : List (Snapshot S))
      → c.max_snapshots_per_task ≡ cap
      → 0 < cap
      → history c task ≡ slice_last cap sofar
      → (task ≟ s.task_id) ≡ true
      → history (save c s) task ≡ slice_last cap (sofar ++ s ∷ [])
  saved c cap task s sofar e h i t =
      let same : task ≡ s.task_id = (string_key.same_iff task s.task_id).0 t in
      let i' : history c s.task_id ≡ slice_last cap sofar =
        subst (λ (k : String). history c k ≡ slice_last cap sofar) same i in
      rw (save-history c s task (rw e h), t, i', e) (slice_last-append cap sofar s h)

  passed :
      (c : CheckpointStore S) (max : ℕ) (task : String) (s : Snapshot S) (sofar : List (Snapshot S))
      → c.max_snapshots_per_task ≡ max
      → 0 < max
      → history c task ≡ slice_last max sofar
      → (task ≟ s.task_id) ≡ false
      → history (save c s) task ≡ slice_last max sofar
  passed c max task s sofar e h i t = rw (save-history c s task (rw e h), t) i

  run-log :
      (c : CheckpointStore S) (max : ℕ) (task : String) (xs : List (Call S))
      (sofar : List (Snapshot S))
      → c.max_snapshots_per_task ≡ max
      → 0 < max
      → history c task ≡ slice_last max sofar
      → history (run c xs) task ≡ slice_last max (log task xs sofar)
  unfolding run log
  run-log c max task [] sofar e h i = i
  run-log c max task (saves s ∷ xs) sofar e h i = elim (Bool-cases (task ≟ s.task_id)) [
    | inl t ↦
        rw t
          (run-log (save c s) max task xs (sofar ++ s ∷ []) e h (saved c max task s sofar e h i t))
    | inr t ↦ rw t (run-log (save c s) max task xs sofar e h (passed c max task s sofar e h i t))
  ]
  run-log c max task (clears other ∷ xs) sofar e h i = elim (Bool-cases (task ≟ other)) [
    | inl t ↦ rw t (
        run-log (clear c other) max task xs [] e h (
          let z : slice_last max (log {S = S} task [] []) ≡ [] = ground arith in
          rw (clear-history c other task, t) (sym z)))
    | inr t ↦
        rw t (run-log (clear c other) max task xs sofar e h (rw (clear-history c other task, t) i))
  ]

  -- With a cap above 0, the store holds of each task the last snapshots, up to the cap, of those
  -- saved since the task was last cleared, and its latest is the last one saved.
  pub run-retains :
      (max : ℕ) (task : String) (xs : List (Call S))
      → 0 < max
      → let c = run (init {S = S} max) xs in
        (history c task ≡ slice_last max (log task xs []))
        × (latest c task ≡ get_last? (log task xs []))
        × (length (history c task) ≤ max)
  unfolding init latest
  run-retains max task xs h =
      let z : history (init {S = S} max) task ≡ slice_last max [] =
        unfold history in ground arith in
      let r = run-log (init max) max task xs [] refl h z in
      let l = log task xs [] in
      rw r (
        refl,
        get_last?-slice_last max l h,
        rw (slice_last-drop max l h) (omega (arith, length-drop (length l - max) l)),
      )
