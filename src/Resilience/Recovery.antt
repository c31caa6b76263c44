-- ===== src/Resilience/Recovery.antt =====
-- src/resilience/recovery.py: `RecoveryManager`, the checks before a run is resumed.
-- A check is a function of the checkpoint; the resume is a step of the world.
mod Consistency
mod Tests
use ai_agent_code.Common.{
  ℕ, zero, suc, ◌+◌, ◌-◌, ◌*◌, ◌≤◌, ◌<◌, min, max, ◌≡◌, ◌≢◌, ◌⊎◌, ◌↔◌, inl, inr, refl, sym, ap, ◌∙◌,
  Bool, true, false, not, ◌&&◌, ◌||◌, Option, none, some, List, [], ◌∷◌, ◌++◌, map, reverse, arith,
  String, if◌then◌else◌, leb, ltb, ◌==◌, ◌≟◌, elem, length, drop, keep, count, get_last?,
  slice_last, All, Bool-cases, Option-cases, Key, string_key, nat_key,
}

pub record ConsistencyReport : Type 0 where
  pub ok : Bool
  pub issues : List String

pub record RecoveryResult : Type 0 where
  pub recovered : Bool
  pub checkpoint_id : String
  pub report : ConsistencyReport

-- A completed tool call, with its key if it has one, and a checkpoint.
pub record Checkpoint : Type 0 where
  pub checkpoint_id : Option String
  pub has_state : Bool
  -- The keys of the tool calls; `none` is a missing or an empty key.
  pub idempotency_keys : List (Option String)
  -- Whether the accumulated cost is below 0.
  pub negative_cost : Bool

abbrev pub Check : Type 0
Check = Checkpoint → Bool × String

-- The loop of `validate`.
pub run_checks : List Check → Checkpoint → List String → List String
run_checks [] c issues = issues
run_checks (check ∷ checks) c issues =
    let (ok, issue) = check c in
    let rest = run_checks checks c issues in
    let failed = run_checks checks c (issues ++ issue ∷ []) in if not ok then failed else rest

-- `validate`
pub validate : List Check → Checkpoint → ConsistencyReport
unfolding run_checks
validate checks c =
    let issues = run_checks checks c [] in record { ok = length issues == 0; issues = issues }

-- `recover`
pub recover :
    {W : Type 0} → List Check → Checkpoint → Option (Checkpoint → W → W) → W → W × RecoveryResult
unfolding validate
recover {W} checks c resume_fn w =
    let report = validate checks c in
    let id : String = elim c.checkpoint_id [ none ↦ "" | some id ↦ id ] in
    let resumed : W = elim resume_fn [ none ↦ w | some resume ↦ resume c w ] in
    if not report.ok
    then (w, record { recovered = false; checkpoint_id = id; report = report })
    else (resumed, record { recovered = true; checkpoint_id = id; report = report })

pub check_context_present : Check
check_context_present c = if not c.has_state then (false, "checkpoint has no state") else (true, "")

pub all_keyed : List (Option String) → Bool
all_keyed [] = true
all_keyed (none ∷ ks) = false
all_keyed (some k ∷ ks) = all_keyed ks

pub check_idempotency_complete : Check
unfolding all_keyed
check_idempotency_complete c =
    if all_keyed c.idempotency_keys
    then (true, "")
    else (false, "tool call missing idempotency_key")

pub check_cost_not_negative : Check
check_cost_not_negative c =
    if c.negative_cost then (false, "negative accumulated cost") else (true, "")
