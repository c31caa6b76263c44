-- ===== src/Harness/Checkpoint.antt =====
-- src/harness/checkpoint.py: `CheckpointStore`, the snapshots of each task.
-- A snapshot's state and tool calls are a value of the type `S`.
mod Retention
mod Tests
use ai_agent_code.Common.Dict
use ai_agent_code.Common.Dict.{Dict}
use ai_agent_code.Common.{
  ℕ, zero, suc, ◌+◌, ◌-◌, ◌*◌, ◌≤◌, ◌<◌, min, max, ◌≡◌, ◌≢◌, ◌⊎◌, ◌↔◌, inl, inr, refl, sym, ap, ◌∙◌,
  Bool, true, false, not, ◌&&◌, ◌||◌, Option, none, some, List, [], ◌∷◌, ◌++◌, map, reverse, arith,
  String, if◌then◌else◌, leb, ltb, ◌==◌, ◌≟◌, elem, length, drop, keep, count, get_last?,
  slice_last, All, Bool-cases, Option-cases, Key, string_key, nat_key,
}

pub record Snapshot (S : Type 0) : Type 0 where
  pub task_id : String
  pub step_index : ℕ
  pub state : S
  pub cost_usd : ℕ
  pub tokens_used : ℕ
  pub timestamp : ℕ

pub record CheckpointStore (S : Type 0) : Type 0 where
  pub max_snapshots_per_task : ℕ
  pub snapshots : Dict String (List (Snapshot S))

module _ {S : Type 0} where
  -- `__init__`
  pub init : ℕ → CheckpointStore S
  init max = record { max_snapshots_per_task = max; snapshots = [] }

  -- `history`: the dictionaries of `to_dict` hold the fields of the snapshots.
  pub history : CheckpointStore S → String → List (Snapshot S)
  history c task_id = elim (Dict.lookup task_id c.snapshots) [ none ↦ [] | some snaps ↦ snaps ]

  -- The list after an append, cut to the last ones when it is too long.
  retain : ℕ → List (Snapshot S) → List (Snapshot S)
  retain max snaps = if ltb max (length snaps) then slice_last max snaps else snaps

  -- `save`
  pub save : CheckpointStore S → Snapshot S → CheckpointStore S
  unfolding history retain
  save c snapshot =
      let snaps = history c snapshot.task_id ++ snapshot ∷ [] in
      record c {
        snapshots =
            Dict.insert snapshot.task_id (retain c.max_snapshots_per_task snaps) c.snapshots;
      }

  -- `latest`
  pub latest : CheckpointStore S → String → Option (Snapshot S)
  latest c task_id = get_last? (history c task_id)

  -- `clear`
  pub clear : CheckpointStore S → String → CheckpointStore S
  clear c task_id = record c { snapshots = Dict.erase task_id c.snapshots }

-- A call that changes the store.
pub data Call (S : Type 0) : Type 0 where
  saves : Snapshot S → Call S
  clears : String → Call S

module _ {S : Type 0} where
  pub step : CheckpointStore S → Call S → CheckpointStore S
  unfolding save clear
  step c (saves s) = save c s
  step c (clears task_id) = clear c task_id

  pub run : CheckpointStore S → List (Call S) → CheckpointStore S
  unfolding step
  run c [] = c
  run c (x ∷ xs) = run (step c x) xs
