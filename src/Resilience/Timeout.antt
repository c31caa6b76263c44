-- ===== src/Resilience/Timeout.antt =====
-- src/resilience/timeout.py: `TimeoutPolicy`, the table of timeouts and its hierarchy.
-- A timeout is a number of tenths of a second. A violation is the pair of the two layers.
mod Hierarchy
mod Tests
use ai_agent_code.Common.Dict
use ai_agent_code.Common.Dict.{Dict}
use ai_agent_code.Common.{
  ℕ, zero, suc, ◌+◌, ◌-◌, ◌*◌, ◌≤◌, ◌<◌, min, max, ◌≡◌, ◌≢◌, ◌⊎◌, ◌↔◌, inl, inr, refl, sym, ap, ◌∙◌,
  Bool, true, false, not, ◌&&◌, ◌||◌, Option, none, some, List, [], ◌∷◌, ◌++◌, map, reverse, arith,
  String, if◌then◌else◌, leb, ltb, ◌==◌, ◌≟◌, elem, length, drop, keep, count, get_last?,
  slice_last, All, Bool-cases, Option-cases, Key, string_key, nat_key,
}

abbrev pub default_timeouts : Dict String ℕ
default_timeouts =
    ("mcp_connect", 5)
    ∷ ("mcp_read", 30)
    ∷ ("mcp_total", 50)
    ∷ ("tool_read", 30)
    ∷ ("tool_write", 50)
    ∷ ("sandbox", 100)
    ∷ ("llm_generation", 300)
    ∷ ("sub_agent", 600)
    ∷ ("agent", 3000)
    ∷ ("task", 9000)
    ∷ ("session_idle", 18_000)
    ∷ ("session_max", 864_000)
    ∷ ("heartbeat", 300)
    ∷ ("background", 36_000)
    ∷ []

abbrev pub layer_chains : List (List String)
layer_chains =
    ("mcp_connect" ∷ "mcp_read" ∷ "mcp_total" ∷ [])
    ∷ ("tool_read" ∷ "tool_write" ∷ "sandbox" ∷ "llm_generation" ∷ "sub_agent" ∷ "agent" ∷ "task"
        ∷ [])
    ∷ []

pub record TimeoutPolicy : Type 0 where
  pub timeouts : Dict String ℕ

-- `get`: `none` is the `KeyError`.
pub get : TimeoutPolicy → String → Option ℕ
get p layer = Dict.lookup layer p.timeouts

-- The violation of two neighbours of a chain, if both are in the table.
violation : TimeoutPolicy → String → String → List (String × String)
violation p inner outer = elim (Dict.lookup inner p.timeouts) [
  | none ↦ []
  | some i ↦ elim (Dict.lookup outer p.timeouts) [
    | none ↦ []
    | some o ↦ if leb o i then (inner, outer) ∷ [] else []
  ]
]

pub chain_violations : TimeoutPolicy → List String → List (String × String)
unfolding violation
chain_violations p [] = []
chain_violations p (inner ∷ []) = []
chain_violations p (inner ∷ outer ∷ chain) =
    violation p inner outer ++ chain_violations p (outer ∷ chain)

pub violations : TimeoutPolicy → List (List String) → List (String × String)
unfolding chain_violations
violations p [] = []
violations p (chain ∷ chains) = chain_violations p chain ++ violations p chains

-- `validate_hierarchy`
pub validate_hierarchy : TimeoutPolicy → List (String × String)
unfolding violations
validate_hierarchy p = violations p layer_chains

-- `remaining`: `max(0.0, ...)` is the subtraction that stops at 0.
pub remaining : TimeoutPolicy → String → ℕ → Option ℕ
unfolding get
remaining p layer elapsed = elim (get p layer) [ none ↦ none | some t ↦ some (t - elapsed) ]

-- `build_default_policy`
pub build_default_policy : TimeoutPolicy
build_default_policy = record { timeouts = default_timeouts }
