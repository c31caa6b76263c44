-- ===== src/Tokens/Budget/Quotas.antt =====
-- src/domain/token_management/budget.py: the quotas fit in the window, and so is a budget exceeded.
use native.Mathlib.Nat.{mul-le-mul_left}
use ai_agent_code.Common.{
  ℕ, ◌≤◌, ◌<◌, ◌≡◌, ◌↔◌, inl, inr, refl, ap, true, List, [], ◌∷◌, arith, String, Bool-cases,
  Option-cases, string_key, nat_key,
}
use ai_agent_code.Tokens.Budget.{
  validate_component, Component, system, fewshot, history, knowledge, output, at, sum, BudgetConfig,
  total_pct, TokenBudget, share, quotas_of, init, consume, is_over, is_exceeded, reset, resize,
}

sum-quotas_of :
    (c : BudgetConfig) (window : ℕ) → total_pct c ≤ 10000 → sum (quotas_of c window) ≤ window
unfolding sum quotas_of share total_pct
sum-quotas_of c window h = omega (arith, mul-le-mul_left window h)

-- A call of a budget.
pub data Call : Type 0 where
  consumes : String → ℕ → Call
  resets : Call
  resizes : ℕ → Call

unfoldable pub step : TokenBudget → Call → TokenBudget
unfolding consume reset resize
step b (consumes name n) = (consume b name n).0
step b resets = reset b
step b (resizes window) = resize b window

unfoldable pub run : TokenBudget → List Call → TokenBudget
unfolding step
run b [] = b
run b (c ∷ cs) = run (step b c) cs

-- The quotas are those of the effective window, whose percentages sum to one at most.
unfoldable pub IsShared : TokenBudget → Type 0
IsShared b = (b.quotas ≡ quotas_of b.config b.effective_window) × (total_pct b.config ≤ 10000)

step-IsShared : (b : TokenBudget) (c : Call) → IsShared b → IsShared (step b c)
unfolding step IsShared consume
step-IsShared b (consumes name n) s = elim (Option-cases (validate_component name)) [
  | inl e ↦ rw (step, consume, e) s
  | inr (d, e) ↦ rw (step, consume, e) s
]
step-IsShared b resets s = unfold reset in s
step-IsShared b (resizes window) s = unfold resize in (refl, s.1)

run-IsShared : (b : TokenBudget) (cs : List Call) → IsShared b → IsShared (run b cs)
unfolding run
run-IsShared b [] s = s
run-IsShared b (c ∷ cs) s = run-IsShared (step b c) cs (step-IsShared b c s)

over-exceeded :
    (b : TokenBudget) (c : Component) → at b.quotas c < at b.consumed c → is_exceeded b ≡ true
unfolding is_exceeded is_over at
over-exceeded b system h = ground arith
over-exceeded b fewshot h = ground arith
over-exceeded b history h = ground arith
over-exceeded b knowledge h = ground arith
over-exceeded b output h = ground arith

exceeded-over :
    (b : TokenBudget)
    → sum b.quotas ≤ b.effective_window
    → is_exceeded b ≡ true
    → (c : Component) × (at b.quotas c < at b.consumed c)
unfolding is_exceeded is_over at sum
exceeded-over b l x = elim (Bool-cases (is_over b system)) [
  | inl p ↦ (system, ground (arith, p))
  | inr p ↦ elim (Bool-cases (is_over b fewshot)) [
    | inl q ↦ (fewshot, ground (arith, q))
    | inr q ↦ elim (Bool-cases (is_over b history)) [
      | inl r ↦ (history, ground (arith, r))
      | inr r ↦ elim (Bool-cases (is_over b knowledge)) [
        | inl s ↦ (knowledge, ground (arith, s))
        | inr s ↦ (output, ground (arith, l, x, p, q, r, s))
      ]
    ]
  ]
]

-- Whenever the percentages of the configuration sum to one at most, after any calls a budget is
-- exceeded exactly when some component has consumed more than its quota: as long as each keeps to
-- its own, all together fit in the effective window.
pub is_exceeded-over :
    (context_window : ℕ) (config : BudgetConfig) (cs : List Call)
    → total_pct config ≤ 10000
    → (is_exceeded (run (init context_window config) cs) ≡ true) ↔ (
        (c : Component) × (at (run (init context_window config) cs).quotas c
          < at (run (init context_window config) cs).consumed c))
unfolding IsShared
is_exceeded-over context_window config cs h =
    let b = run (init context_window config) cs in
    let s = run-IsShared (init context_window config) cs (unfold init in (refl, h)) in
    let l : sum b.quotas ≤ b.effective_window =
      omega (arith, ap sum s.0, sum-quotas_of b.config b.effective_window s.1) in
    (exceeded-over b l, λ (c, o). over-exceeded b c o)
