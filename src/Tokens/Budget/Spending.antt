-- ===== src/Tokens/Budget/Spending.antt =====
-- src/domain/token_management/budget.py: what a component has consumed.
use ai_agent_code.Common.{
  ℕ, ◌+◌, ◌≡◌, inl, inr, refl, ap, ◌∙◌, Bool, true, false, none, some, List, [], ◌∷◌, String,
  if◌then◌else◌, Option-cases, string_key, nat_key,
}
use ai_agent_code.Tokens.Budget.{
  validate_component, Component, system, fewshot, history, knowledge, output, Table, at, add_at,
  BudgetConfig, TokenBudget, init, consume, reset, resize, nothing,
}
use ai_agent_code.Tokens.Budget.Quotas.{Call, consumes, resets, resizes, step, run}

same : Component → Component → Bool
same system system = true
same fewshot fewshot = true
same history history = true
same knowledge knowledge = true
same output output = true
same a b = false

-- What holds of each of the five holds of all.
each :
    (P : Component → Type 0)
    → P system
    → P fewshot
    → P history
    → P knowledge
    → P output
    → (c : Component) → P c
each P a b c d e system = a
each P a b c d e fewshot = b
each P a b c d e history = c
each P a b c d e knowledge = d
each P a b c d e output = e

Adds : Table → ℕ → Component → Component → Type 0
Adds t n a c = at (add_at t a n) c ≡ (if same a c then at t c + n else at t c)

at-Adds : (t : Table) (n : ℕ) (a c : Component) → Adds t n a c
unfolding Adds at add_at same
at-Adds t n system = each (Adds t n system) refl refl refl refl refl
at-Adds t n fewshot = each (Adds t n fewshot) refl refl refl refl refl
at-Adds t n history = each (Adds t n history) refl refl refl refl refl
at-Adds t n knowledge = each (Adds t n knowledge) refl refl refl refl refl
at-Adds t n output = each (Adds t n output) refl refl refl refl refl

-- Whether a call under a name is one of a component.
pub charges : Component → String → Bool
unfolding same
charges c name = elim (validate_component name) [ none ↦ false | some d ↦ same d c ]

-- The tokens of a component: those consumed under its name since the last reset, after a number.
pub spent : Component → ℕ → List Call → ℕ
spent c n [] = n
spent c n (consumes name k ∷ cs) = spent c (if charges c name then n + k else n) cs
spent c n (resets ∷ cs) = spent c 0 cs
spent c n (resizes window ∷ cs) = spent c n cs

consume-at :
    (b : TokenBudget) (c : Component) (name : String) (k : ℕ)
    → at (consume b name k).0.consumed c
      ≡ (if charges c name then at b.consumed c + k else at b.consumed c)
unfolding consume charges Adds
consume-at b c name k = elim (Option-cases (validate_component name)) [
  | inl e ↦ rw (consume, charges, e) refl
  | inr (d, e) ↦ rw (consume, charges, e) (at-Adds b.consumed k d c)
]

nothing-at : (c : Component) → at nothing c ≡ 0
unfolding at
nothing-at = each (λ c. at nothing c ≡ 0) refl refl refl refl refl

run-spent :
    (b : TokenBudget) (c : Component) (cs : List Call)
    → at (run b cs).consumed c ≡ spent c (at b.consumed c) cs
unfolding run spent step
run-spent b c [] = refl
run-spent b c (consumes name k ∷ cs) =
    run-spent (consume b name k).0 c cs ∙ ap (λ n. spent c n cs) (consume-at b c name k)
run-spent b c (resets ∷ cs) =
    unfold reset in run-spent (reset b) c cs ∙ ap (λ n. spent c n cs) (nothing-at c)
run-spent b c (resizes window ∷ cs) = unfold resize in run-spent (resize b window) c cs

-- After any calls each component has consumed what was consumed under its name since the last reset;
-- calls under other names, also those that are refused, and resizing change nothing of it.
pub run-consumed :
    (context_window : ℕ) (config : BudgetConfig) (c : Component) (cs : List Call)
    → at (run (init context_window config) cs).consumed c ≡ spent c 0 cs
run-consumed context_window config c cs =
    run-spent (init context_window config) c cs
    ∙ ap (λ n. spent c n cs) (unfold init in nothing-at c)
