-- ===== src/Resilience/Timeout/Tests.antt =====
-- The recommended table of timeouts, and a table with a gap.
use ai_agent_code.Common.{◌≡◌, ◌↔◌, refl, some, [], ◌∷◌, All, string_key, nat_key}
use ai_agent_code.Resilience.Timeout.{
  layer_chains, validate_hierarchy, remaining, build_default_policy,
}
use ai_agent_code.Resilience.Timeout.Hierarchy.{Complete, Nested, validate_hierarchy-Nested}

defaults_valid : validate_hierarchy build_default_policy ≡ []
unfolding validate_hierarchy build_default_policy
defaults_valid = refl

left_over : remaining build_default_policy "agent" 1000 ≡ some 2000
unfolding remaining build_default_policy
left_over = refl

-- Without the layer between them, two layers of one chain are not compared.
gap : validate_hierarchy (record { timeouts = ("mcp_connect", 90) ∷ ("mcp_total", 50) ∷ [] }) ≡ []
unfolding validate_hierarchy
gap = refl

defaults-Complete : All (Complete build_default_policy) layer_chains
unfolding Complete build_default_policy
defaults-Complete = (
  ((5, refl), ((30, refl), ((50, refl), tt))),
  (
    (
      (30, refl),
      ((50, refl), ((100, refl), ((300, refl), ((600, refl), ((3000, refl), ((9000, refl), tt)))))),
    ),
    tt,
  ),
)

validate_hierarchy-Nested_example :
    (validate_hierarchy build_default_policy ≡ []) ↔ All (Nested build_default_policy) layer_chains
validate_hierarchy-Nested_example = validate_hierarchy-Nested build_default_policy defaults-Complete
