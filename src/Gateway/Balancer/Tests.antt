-- ===== src/Gateway/Balancer/Tests.antt =====
-- Runs of the weighted round robin, and the theorems at concrete inputs.
use ai_agent_code.Common.{◌≡◌, ◌∷◌, arith, ℕ, [], String, string_key, refl}
use ai_agent_code.Common.Dict.{Dict}
use ai_agent_code.Gateway.Balancer.{select}
use ai_agent_code.Gateway.Balancer.Fairness.{Ahead, selections, selections-fair}

abbrev weights : Dict String ℕ
weights = ("openai", 100) ∷ ("azure", 50) ∷ []

nine_requests :
    selections weights ("openai" ∷ "azure" ∷ []) 9 [] ≡ ("openai", 6) ∷ ("azure", 3) ∷ []
unfolding selections select
nine_requests = refl

selections-fair_example :
    Ahead weights (selections weights ("openai" ∷ "azure" ∷ []) 9 []) "openai" "azure"
selections-fair_example =
    selections-fair weights "openai" "azure" [] 9 "openai" "azure" refl (omega arith)
