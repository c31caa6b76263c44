-- ===== src/Tokens/Budget/Tests.antt =====
-- A budget of the default shares, and the theorems at concrete inputs.
use ai_agent_code.Common.{
  negsuc, ◌≤◌, ◌<◌, ◌≡◌, ◌↔◌, refl, true, none, some, List, [], ◌∷◌, arith, string_key, nat_key,
}
use ai_agent_code.Tokens.Budget.{
  Component, at, default_config, total_pct, validate, init, allocate, consume, remaining,
  is_exceeded,
}
use ai_agent_code.Tokens.Budget.Quotas.{Call, consumes, resets, resizes, run, is_exceeded-over}

-- The safety margin counts before the share: the quota is not 19200.
system_quota : allocate (init 128000 default_config) "system" ≡ some 18240
unfolding allocate init
system_quota = refl

no_component : allocate (init 128000 default_config) "tools" ≡ none
unfolding allocate init
no_component = refl

overdrawn :
    remaining (consume (init 1000 default_config) "output" 200).0 "output" ≡ some (negsuc 85)
unfolding remaining consume init
overdrawn = refl

default_valid : validate default_config ≡ []
unfolding validate
default_valid = refl

abbrev calls : List Call
calls =
    consumes "output" 100 ∷ resets ∷ consumes "output" 150 ∷ consumes "tools" 10 ∷ resizes 1200 ∷ []

all_shared : total_pct default_config ≤ 10000
unfolding total_pct
all_shared = omega arith

is_exceeded-over_example : (is_exceeded (run (init 1000 default_config) calls) ≡ true) ↔ (
    (c : Component) × (at (run (init 1000 default_config) calls).quotas c
      < at (run (init 1000 default_config) calls).consumed c))
is_exceeded-over_example = is_exceeded-over 1000 default_config calls all_shared
