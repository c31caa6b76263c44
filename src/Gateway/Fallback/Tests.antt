-- ===== src/Gateway/Fallback/Tests.antt =====
-- Runs of the fallback chain, and the theorems at concrete inputs.
use ai_agent_code.Common.{
  ◌+◌, ◌≡◌, ◌∷◌, if◌then◌else◌, ◌≟◌, ℕ, true, some, [], String, string_key, refl,
}
use ai_agent_code.Gateway.Fallback.{
  FallbackChain, default_fallback_chains, get_chain, Attempt, success, failure, answered, execute,
}
use ai_agent_code.Gateway.Fallback.Plan.{plan, Explains, execute-Explains}

abbrev defaults : FallbackChain
defaults = record { chains = default_fallback_chains; universal_fallbacks = "gpt-4o-mini" ∷ [] }

-- A world that counts the calls, in which only "gpt-4o-mini" answers, with the count.
abbrev only_mini : ℕ → String → ℕ × Attempt ℕ String
only_mini n m = (n + 1, if m ≟ "gpt-4o-mini" then success n else failure m)

family : get_chain defaults "gpt-4o-2024" ≡ "claude-sonnet-4" ∷ "gpt-4o-mini" ∷ []
unfolding get_chain
family = refl

falls_back :
    execute only_mini defaults "gpt-4o" [] 0
    ≡ (3, answered 2 (some ("gpt-4o", "gpt-4o" ∷ "claude-sonnet-4" ∷ "gpt-4o-mini" ∷ [])))
unfolding execute get_chain
falls_back = refl

execute-Explains_example :
    Explains only_mini "gpt-4o" true
      (plan defaults "gpt-4o" [])
      0
      (execute only_mini defaults "gpt-4o" [] 0)
execute-Explains_example = execute-Explains only_mini defaults "gpt-4o" [] 0
