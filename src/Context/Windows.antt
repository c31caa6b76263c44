-- ===== src/Context/Windows.antt =====
-- src/domain/context_management/window_manager.py: `ContextWindowManager`.
-- Python's `str.lower` is the parameter `lower`. `register_window` changes the table of the class, which
-- all managers share, and the manager's own table of lower-case names; a manager here holds both.
mod Choice
mod Tests
use ai_agent_code.Common.Dict
use ai_agent_code.Common.Dict.{Dict}
use ai_agent_code.Common.{
  ℕ, ℤ, pos, negsuc, diff, zero, suc, ◌+◌, ◌-◌, ◌*◌, ◌/◌, ◌≤◌, ◌<◌, min, max, ◌≡◌, ◌≢◌, ◌⊎◌, ◌↔◌,
  inl, inr, refl, sym, ap, ◌∙◌, Bool, true, false, not, ◌&&◌, ◌||◌, Option, none, some, List, [],
  ◌∷◌, ◌++◌, map, reverse, arith, String, if◌then◌else◌, leb, ltb, ◌==◌, ◌≟◌, elem, length, drop,
  take, keep, count, get_last?, slice_last, All, Bool-cases, Option-cases, Key, string_key, nat_key,
}

pub record ContextWindowManager : Type 0 where
  pub model_windows : Dict String ℕ
  pub windows_lower : Dict String ℕ

-- `MODEL_WINDOWS`; a name that stands there twice has the same window both times.
abbrev pub model_windows_table : Dict String ℕ
model_windows_table =
    ("gpt-4o", 128000)
    ∷ ("gpt-4o-mini", 128000)
    ∷ ("gpt-4o-2024-08-06", 128000)
    ∷ ("gpt-4", 8192)
    ∷ ("gpt-4-32k", 32768)
    ∷ ("gpt-3.5-turbo", 16385)
    ∷ ("gpt-3.5-turbo-16k", 16385)
    ∷ ("gpt-3.5-turbo-instruct", 4096)
    ∷ ("o1", 200000)
    ∷ ("o1-mini", 128000)
    ∷ ("o3-mini", 200000)
    ∷ ("gpt-4.1", 1000000)
    ∷ ("gpt-4.1-mini", 1000000)
    ∷ ("gpt-4.1-nano", 1000000)
    ∷ ("claude-sonnet-4", 200000)
    ∷ ("claude-opus-4", 200000)
    ∷ ("claude-3.5-haiku", 200000)
    ∷ ("claude-3-opus", 200000)
    ∷ ("claude-3-sonnet", 200000)
    ∷ ("claude-3-haiku", 200000)
    ∷ ("claude-3.5-sonnet", 200000)
    ∷ ("deepseek-chat", 128000)
    ∷ ("deepseek-reasoner", 128000)
    ∷ ("qwen-max", 32768)
    ∷ ("qwen-plus", 131072)
    ∷ ("qwen-turbo", 1000000)
    ∷ ("qwen3-235b-a22b", 131072)
    ∷ ("gemini-2.5-pro", 1000000)
    ∷ ("gemini-2.5-flash", 1000000)
    ∷ ("gemini-2.0-flash", 1000000)
    ∷ ("gemini-1.5-pro", 2000000)
    ∷ ("gemini-1.5-flash", 1000000)
    ∷ ("mistral-large", 131072)
    ∷ ("mistral-medium", 32768)
    ∷ ("mistral-small", 32768)
    ∷ ("codestral", 32768)
    ∷ ("llama-3-8b", 8192)
    ∷ ("llama-3-70b", 8192)
    ∷ ("llama-3.1-8b", 131072)
    ∷ ("llama-3.1-70b", 131072)
    ∷ ("llama-3.1-405b", 131072)
    ∷ ("mistral-7b", 32768)
    ∷ ("mixtral-8x7b", 32768)
    ∷ ("grok-3", 1000000)
    ∷ ("grok-3-mini", 1000000)
    ∷ ("qwen-2-7b", 32768)
    ∷ ("qwen-2-72b", 32768)
    ∷ []

-- `{k.lower(): v for k, v in d.items()}`
lower_keys : (String → String) → Dict String ℕ → Dict String ℕ → Dict String ℕ
lower_keys lower [] d = d
lower_keys lower ((k, v) ∷ items) d = lower_keys lower items (Dict.insert (lower k) v d)

-- `__init__`, over the table of the class as it is.
pub init : (String → String) → Dict String ℕ → ContextWindowManager
unfolding lower_keys
init lower windows = record { model_windows = windows; windows_lower = lower_keys lower windows [] }

-- `get_window`
pub get_window : (String → String) → ContextWindowManager → String → ℕ
get_window lower m model = elim (Dict.lookup (lower model) m.windows_lower) [
  | none ↦ 4096
  | some size ↦ size
]

-- `is_within_window`, over the count of the messages.
pub is_within_window : (String → String) → ContextWindowManager → ℕ → String → Bool
unfolding get_window
is_within_window lower m token_count model = leb token_count (get_window lower m model)

-- The loop of `recommend_model_for_tokens`: the best model so far and its window.
recommend :
    (String → String) → List String → ℕ → Dict String ℕ → Option String → ℕ → Option String × ℕ
recommend lower exclude required [] best_model best_window = (best_model, best_window)
recommend lower exclude required ((model, window) ∷ items) best_model best_window =
    let same = recommend lower exclude required items best_model best_window in
    let other = recommend lower exclude required items (some model) window in
    if elem (lower model) exclude
    then same
    else if leb required window && (best_window == 0 || ltb window best_window)
    then other
    else same

-- `recommend_model_for_tokens`
pub recommend_model_for_tokens :
    (String → String) → ContextWindowManager → ℕ → List String → Option String
unfolding recommend
recommend_model_for_tokens lower m required exclude_models =
    (recommend lower (map lower exclude_models) required m.model_windows none 0).0

-- `register_window`
pub register_window : (String → String) → ContextWindowManager → String → ℕ → ContextWindowManager
register_window lower m model window = record {
  model_windows = Dict.insert model window m.model_windows;
  windows_lower = Dict.insert (lower model) window m.windows_lower;
}
