-- ===== src/Gateway/Fallback.antt =====
-- src/ai_gateway/fallback.py: `FallbackChain`. A request is its model name, the one field that the
-- chain rewrites. The call of a provider is a parameter: it takes the state of the outside world
-- to a new one, and answers or raises.
pub mod Plan
mod Tests
use text.Mathlib.Text.{starts_with}
use ai_agent_code.Common.Dict
use ai_agent_code.Common.Dict.{Dict}
use ai_agent_code.Common.{
  ℕ, ◌≡◌, Bool, true, false, not, List, [], ◌∷◌, ◌++◌, Option, none, some, String, string_key, elem,
  if◌then◌else◌,
}

pub record FallbackChain : Type 0 where
  pub chains : Dict String (List String)
  pub universal_fallbacks : List String

-- `DEFAULT_FALLBACK_CHAINS`
abbrev pub default_fallback_chains : Dict String (List String)
default_fallback_chains =
    ("gpt-4o", "claude-sonnet-4" ∷ "gpt-4o-mini" ∷ [])
    ∷ ("gpt-4.1", "claude-sonnet-4" ∷ "gpt-4o-mini" ∷ [])
    ∷ ("claude-opus-4", "claude-sonnet-4" ∷ "gpt-4o" ∷ [])
    ∷ ("claude-sonnet-4", "gpt-4o" ∷ "gpt-4o-mini" ∷ [])
    ∷ ("deepseek-chat", "gpt-4o-mini" ∷ "claude-haiku-3.5" ∷ [])
    ∷ ("gpt-4o-mini", "claude-haiku-3.5" ∷ "deepseek-chat" ∷ [])
    ∷ ("claude-haiku-3.5", "gpt-4o-mini" ∷ [])
    ∷ []

-- `set_chain`
pub set_chain : FallbackChain → String → List String → FallbackChain
set_chain f model_id models = record f { chains = Dict.insert model_id models f.chains }

-- The loop of `get_chain` over the known models: the first that the name starts with.
partial_match : String → Dict String (List String) → Option (List String)
partial_match model_id [] = none
partial_match model_id ((known, models) ∷ rest) =
    if starts_with model_id known then some models else partial_match model_id rest

or_universal : FallbackChain → Option (List String) → List String
or_universal f none = f.universal_fallbacks
or_universal f (some models) = models

by_family : FallbackChain → String → List String
unfolding partial_match or_universal
by_family f model_id = or_universal f (partial_match model_id f.chains)

-- `get_chain`: an empty chain is false in Python, and is passed over.
pub get_chain : FallbackChain → String → List String
unfolding by_family
get_chain f model_id = elim (Dict.lookup model_id f.chains) [
  | none ↦ by_family f model_id
  | some models ↦ elim models [ [] ↦ by_family f model_id | m ∷ ms ↦ m ∷ ms ]
]

first_available : List String → List String → Option String
first_available skipped [] = none
first_available skipped (m ∷ ms) = if elem m skipped then first_available skipped ms else some m

-- `resolve_model`
pub resolve_model : FallbackChain → String → List String → Option String
unfolding first_available
resolve_model f requested skipped =
    if not (elem requested skipped)
    then some requested
    else first_available skipped (get_chain f requested)

-- What a call of a provider comes to.
pub data Attempt (R E : Type 0) : Type 0 where
  success : R → Attempt R E
  failure : E → Attempt R E

-- What `execute` comes to: a response, with the metadata `fallback_from` and `fallback_chain` if a
-- fallback gave it, or `FallbackExhaustedError`.
pub data Outcome (R E : Type 0) : Type 0 where
  answered : R → Option (String × List String) → Outcome R E
  exhausted : String → List String → Option E → Outcome R E

module _ {W R E : Type 0} (execute_fn : W → String → W × Attempt R E) where
  -- The loop over the fallback models.
  try_chain : String → List String → List String → List String → Option E → W → W × Outcome R E
  try_chain original skipped [] tried last_error w = (w, exhausted original tried last_error)
  try_chain original skipped (m ∷ ms) tried last_error w =
      let skip = try_chain original skipped ms tried last_error w in
      let tried' = tried ++ m ∷ [] in
      let go : W × Attempt R E → W × Outcome R E = λ r. elim r.1 [
        | success a ↦ (r.0, answered a (some (original, tried')))
        | failure e ↦ try_chain original skipped ms tried' (some e) r.0
      ] in
      if elem m skipped then skip else go (execute_fn w m)

  -- `execute`
  pub execute : FallbackChain → String → List String → W → W × Outcome R E
  unfolding try_chain
  execute f model skipped w =
      let fallback_models = get_chain f model in
      if not (elem model skipped)
      then (let r = execute_fn w model in
          elim r.1 [
            | success a ↦ (r.0, answered a none)
            | failure e ↦ try_chain model skipped fallback_models (model ∷ []) (some e) r.0
          ])
      else try_chain model skipped fallback_models [] none w
