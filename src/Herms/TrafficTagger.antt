-- ===== src/Herms/TrafficTagger.antt =====
-- src/herms/traffic_tagger.py: `TrafficTags` and the headers that carry them.
-- A new trace identifier, which `uuid4` makes, is an argument. The lower-case form of a header's name
-- is written out, since the names are constants.
mod Headers
mod Tests
use ai_agent_code.Common.Dict
use ai_agent_code.Common.Dict.{Dict}
use ai_agent_code.Common.{
  ℕ, ℤ, pos, negsuc, diff, zero, suc, ◌+◌, ◌-◌, ◌*◌, ◌/◌, ◌≤◌, ◌<◌, min, max, ◌≡◌, ◌≢◌, ◌⊎◌, ◌↔◌,
  inl, inr, refl, sym, ap, ◌∙◌, Bool, true, false, not, ◌&&◌, ◌||◌, Option, none, some, List, [],
  ◌∷◌, ◌++◌, map, reverse, arith, String, if◌then◌else◌, leb, ltb, ◌==◌, ◌≟◌, elem, length, drop,
  take, keep, count, get_last?, slice_last, All, Bool-cases, Option-cases, Key, string_key, nat_key,
}

pub record TrafficTags : Type 0 where
  pub trace_id : String
  pub tenant_id : String
  pub session_id : String
  pub task_id : String
  pub version_set_id : String
  pub strategy_id : String
  pub experiment_id : String

-- `headers.get(key, "")`
pub get_or_empty : String → Dict String String → String
get_or_empty key headers = elim (Dict.lookup key headers) [ none ↦ "" | some v ↦ v ]

-- `x or y` of strings.
pub or_else : String → String → String
or_else x y = if x ≟ "" then y else x

-- `get` of `from_headers`, with the key in lower case.
pub get : Dict String String → String → String → String
unfolding get_or_empty or_else
get headers key lower = or_else (get_or_empty key headers) (get_or_empty lower headers)

-- `from_headers`
pub from_headers : String → Dict String String → TrafficTags
unfolding get
from_headers new_id headers = record {
  trace_id = or_else (get headers "X-Trace-Id" "x-trace-id") new_id;
  tenant_id = get headers "X-Tenant-Id" "x-tenant-id";
  session_id = get headers "X-Session-Id" "x-session-id";
  task_id = get headers "X-Task-Id" "x-task-id";
  version_set_id = get headers "X-Version-Set-Id" "x-version-set-id";
  strategy_id = get headers "X-Strategy-Id" "x-strategy-id";
  experiment_id = get headers "X-Experiment-Id" "x-experiment-id";
}

-- The fields under the names of their headers.
pub fields : TrafficTags → Dict String String
fields t =
    ("X-Trace-Id", t.trace_id)
    ∷ ("X-Tenant-Id", t.tenant_id)
    ∷ ("X-Session-Id", t.session_id)
    ∷ ("X-Task-Id", t.task_id)
    ∷ ("X-Version-Set-Id", t.version_set_id)
    ∷ ("X-Strategy-Id", t.strategy_id)
    ∷ ("X-Experiment-Id", t.experiment_id)
    ∷ []

-- The entries with a value.
pub non_empty : Dict String String → Dict String String
non_empty [] = []
non_empty ((k, v) ∷ d) = if v ≟ "" then non_empty d else (k, v) ∷ non_empty d

-- `as_headers`
pub as_headers : TrafficTags → Dict String String
unfolding fields non_empty
as_headers t = non_empty (fields t)
