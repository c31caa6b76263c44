-- ===== src/Gateway/Balancer.antt =====
-- src/ai_gateway/load_balancer.py: `WeightedRoundRobin` and the weights that the balancer gives
-- it. A candidate is its provider's name. The float `counter / weight` is compared as the fraction
-- that it stands for.
pub mod Pick
pub mod Fairness
mod Tests
use ai_agent_code.Common.Dict
use ai_agent_code.Common.Dict.{Dict}
use ai_agent_code.Common.{
  ℕ, zero, suc, ◌+◌, ◌*◌, ◌≡◌, Bool, true, false, ◌&&◌, Option, none, some, if◌then◌else◌, String,
  string_key, List, [], ◌∷◌, ltb,
}

abbrev pub default_weight : ℕ
default_weight = 50

-- `weights.get(name, _DEFAULT_WEIGHT)`
abbrev pub weight_of : Dict String ℕ → String → ℕ
weight_of weights name = elim (Dict.lookup name weights) [ none ↦ default_weight | some w ↦ w ]

-- `self._counters.get(name, 0)`
abbrev pub counter_of : Dict String ℕ → String → ℕ
counter_of counters name = elim (Dict.lookup name counters) [ none ↦ 0 | some c ↦ c ]

-- `ratio < best_ratio`; `none` is the float infinity.
abbrev pub beats : ℕ → ℕ → Option (ℕ × ℕ) → Bool
beats counter weight none = ltb 0 weight
beats counter weight (some (c, w)) = ltb 0 weight && ltb (counter * w) (c * weight)

-- The loop of `select` over the candidates.
pub pick : Dict String ℕ → Dict String ℕ → String → Option (ℕ × ℕ) → List String → String
pick counters weights best ratio [] = best
pick counters weights best ratio (p ∷ ps) =
    let weight = weight_of weights p in
    let counter = counter_of counters p in
    let better = beats counter weight ratio in
    pick counters weights (if better then p else best)
      (if better then some (counter, weight) else ratio) ps

-- `WeightedRoundRobin.select`: the counters afterwards and the provider; with no candidate a
-- `ValueError`, and a single one is taken without being counted.
pub select : Dict String ℕ → List String → Dict String ℕ → Option (Dict String ℕ × String)
unfolding pick
select counters [] weights = none
select counters (p ∷ []) weights = some (counters, p)
select counters (p ∷ q ∷ ps) weights =
    let best = pick counters weights p none (p ∷ q ∷ ps) in
    some (Dict.insert best (counter_of counters best + 1) counters, best)

-- `ProviderWeight`, with the fields that the selection reads.
pub record ProviderWeight : Type 0 where
  pub provider_name : String
  pub weight : ℕ
  pub priority : ℕ

configured : List ProviderWeight → Dict String ℕ → Dict String ℕ
configured [] m = m
configured (pw ∷ pws) m = configured pws (Dict.insert pw.provider_name pw.weight m)

with_defaults : List String → Dict String ℕ → Dict String ℕ
with_defaults [] m = m
with_defaults (p ∷ ps) m =
    with_defaults ps (if Dict.contains p m then m else Dict.insert p default_weight m)

-- `_build_weight_map`
pub build_weight_map : Dict String (List ProviderWeight) → String → List String → Dict String ℕ
unfolding configured with_defaults
build_weight_map weights model_id candidates =
    let listed : Dict String ℕ = elim (Dict.lookup model_id weights) [
      | none ↦ []
      | some pws ↦ configured pws []
    ] in
    with_defaults candidates listed
