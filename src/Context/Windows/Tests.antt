-- ===== src/Context/Windows/Tests.antt =====
-- A small table of windows, and the theorems at concrete inputs.
use ai_agent_code.Common.{◌≡◌, refl, some, [], ◌∷◌, map, arith, String, string_key, nat_key}
use ai_agent_code.Context.Windows.{
  ContextWindowManager, model_windows_table, init, get_window, recommend_model_for_tokens,
}
use ai_agent_code.Context.Windows.Choice.{IsChoice, IsPositive, recommend_model_for_tokens-IsChoice}

abbrev lower : String → String
lower s = s

abbrev manager : ContextWindowManager
manager = record {
  model_windows = ("a", 500) ∷ ("b", 100) ∷ ("c", 50) ∷ ("d", 100) ∷ [];
  windows_lower = ("a", 500) ∷ ("b", 100) ∷ [];
}

-- The first of the smallest windows, and the next one without it.
first_smallest : recommend_model_for_tokens lower manager 60 [] ≡ some "b"
unfolding recommend_model_for_tokens
first_smallest = refl

excluded : recommend_model_for_tokens lower manager 60 ("b" ∷ "d" ∷ []) ≡ some "a"
unfolding recommend_model_for_tokens
excluded = refl

known : get_window lower (init lower model_windows_table) "gpt-4-32k" ≡ 32768
unfolding get_window init
known = refl

manager-IsPositive : IsPositive lower manager.model_windows
unfolding IsPositive
manager-IsPositive = (omega arith, (omega arith, (omega arith, (omega arith, tt))))

recommend_model_for_tokens-IsChoice_example :
    IsChoice lower
      (map lower ("b" ∷ []))
      60
      manager.model_windows
      (recommend_model_for_tokens lower manager 60 ("b" ∷ []))
recommend_model_for_tokens-IsChoice_example =
    recommend_model_for_tokens-IsChoice lower manager 60 ("b" ∷ []) manager-IsPositive
