-- ===== src/Tokens/Budget.antt =====
-- src/domain/token_management/budget.py: `TokenBudget`, the shares of a context window.
-- A fraction is counted in ten-thousandths, and `int` of a product of floats is the quotient rounded
-- down. The dicts of the class, which always have the five keys of `VALID_COMPONENTS`, are records of
-- five numbers; a name is validated by reading it as one of the components.
mod Quotas
mod Spending
mod Tests
use ai_agent_code.Common.{
  ℕ, ℤ, pos, negsuc, diff, zero, suc, ◌+◌, ◌-◌, ◌*◌, ◌/◌, ◌≤◌, ◌<◌, min, max, ◌≡◌, ◌≢◌, ◌⊎◌, ◌↔◌,
  inl, inr, refl, sym, ap, ◌∙◌, Bool, true, false, not, ◌&&◌, ◌||◌, Option, none, some, List, [],
  ◌∷◌, ◌++◌, map, reverse, arith, String, if◌then◌else◌, leb, ltb, ◌==◌, ◌≟◌, elem, length, drop,
  take, keep, count, get_last?, slice_last, All, Bool-cases, Option-cases, Key, string_key, nat_key,
}

pub data Component : Type 0 where
  system fewshot history knowledge output : Component

-- `_validate_component`: `none` is the `ValueError`.
pub validate_component : String → Option Component
validate_component name =
    if name ≟ "system"
    then some system
    else if name ≟ "fewshot"
    then some fewshot
    else if name ≟ "history"
    then some history
    else if name ≟ "knowledge"
    then some knowledge
    else if name ≟ "output"
    then some output
    else none

-- A number for each component.
pub record Table : Type 0 where
  pub of_system : ℕ
  pub of_fewshot : ℕ
  pub of_history : ℕ
  pub of_knowledge : ℕ
  pub of_output : ℕ

pub at : Table → Component → ℕ
at t system = t.of_system
at t fewshot = t.of_fewshot
at t history = t.of_history
at t knowledge = t.of_knowledge
at t output = t.of_output

-- `t[component] += n`
pub add_at : Table → Component → ℕ → Table
add_at t system n = record t { of_system = t.of_system + n }
add_at t fewshot n = record t { of_fewshot = t.of_fewshot + n }
add_at t history n = record t { of_history = t.of_history + n }
add_at t knowledge n = record t { of_knowledge = t.of_knowledge + n }
add_at t output n = record t { of_output = t.of_output + n }

-- `sum(t.values())`
pub sum : Table → ℕ
sum t = t.of_system + t.of_fewshot + t.of_history + t.of_knowledge + t.of_output

pub record BudgetConfig : Type 0 where
  pub system_pct : ℕ
  pub fewshot_pct : ℕ
  pub history_pct : ℕ
  pub knowledge_pct : ℕ
  pub output_pct : ℕ
  pub safety_margin : ℕ

abbrev pub default_config : BudgetConfig
default_config = record {
  system_pct = 1500;
  fewshot_pct = 800;
  history_pct = 5000;
  knowledge_pct = 1500;
  output_pct = 1200;
  safety_margin = 9500;
}

pub total_pct : BudgetConfig → ℕ
total_pct c = c.system_pct + c.fewshot_pct + c.history_pct + c.knowledge_pct + c.output_pct

pub data Warning : Type 0 where
  percentages margin : Warning

-- `BudgetConfig.validate`
pub validate : BudgetConfig → List Warning
unfolding total_pct
validate c =
    (if ltb 10500 (total_pct c) || ltb (total_pct c) 9500 then percentages ∷ [] else [])
    ++ (if leb 5000 c.safety_margin && leb c.safety_margin 10000 then [] else margin ∷ [])

pub record TokenBudget : Type 0 where
  pub context_window : ℕ
  pub config : BudgetConfig
  pub effective_window : ℕ
  pub quotas : Table
  pub consumed : Table

-- `int(window * pct)`
pub share : ℕ → ℕ → ℕ
share window pct = window * pct / 10000

-- The quotas of an effective window.
pub quotas_of : BudgetConfig → ℕ → Table
unfolding share
quotas_of c window = record {
  of_system = share window c.system_pct;
  of_fewshot = share window c.fewshot_pct;
  of_history = share window c.history_pct;
  of_knowledge = share window c.knowledge_pct;
  of_output = share window c.output_pct;
}

abbrev pub nothing : Table
nothing = record { of_system = 0; of_fewshot = 0; of_history = 0; of_knowledge = 0; of_output = 0 }

-- `__init__`
pub init : ℕ → BudgetConfig → TokenBudget
unfolding quotas_of
init context_window c =
    let effective = share context_window c.safety_margin in
    record {
      context_window = context_window;
      config = c;
      effective_window = effective;
      quotas = quotas_of c effective;
      consumed = nothing;
    }

-- `allocate`
pub allocate : TokenBudget → String → Option ℕ
unfolding validate_component at
allocate b component = elim (validate_component component) [
  | none ↦ none
  | some c ↦ some (at b.quotas c)
]

-- `consume`: the budget, and whether the component was valid.
pub consume : TokenBudget → String → ℕ → TokenBudget × Bool
unfolding validate_component add_at
consume b component tokens = elim (validate_component component) [
  | none ↦ (b, false)
  | some c ↦ (record b { consumed = add_at b.consumed c tokens }, true)
]

-- `remaining`
pub remaining : TokenBudget → String → Option ℤ
unfolding validate_component at
remaining b component = elim (validate_component component) [
  | none ↦ none
  | some c ↦ some (diff (at b.quotas c) (at b.consumed c))
]

-- `rem < 0` for the remaining tokens of a component.
pub is_over : TokenBudget → Component → Bool
unfolding at
is_over b c = ltb (at b.quotas c) (at b.consumed c)

-- `is_exceeded`
pub is_exceeded : TokenBudget → Bool
unfolding is_over sum
is_exceeded b =
    if ltb b.effective_window (sum b.consumed)
    then true
    else is_over b system
      || (is_over b fewshot || (is_over b history || (is_over b knowledge || is_over b output)))

-- `total_consumed`
pub total_consumed : TokenBudget → ℕ
unfolding sum
total_consumed b = sum b.consumed

-- `total_remaining`: `max(0, ...)` is where subtraction stops.
pub total_remaining : TokenBudget → ℕ
unfolding total_consumed
total_remaining b = b.effective_window - total_consumed b

-- `reset`
pub reset : TokenBudget → TokenBudget
reset b = record b { consumed = nothing }

-- `resize`
pub resize : TokenBudget → ℕ → TokenBudget
unfolding quotas_of
resize b new_context_window =
    let effective = share new_context_window b.config.safety_margin in
    record b {
      context_window = new_context_window;
      effective_window = effective;
      quotas = quotas_of b.config effective;
    }
