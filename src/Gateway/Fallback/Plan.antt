-- ===== src/Gateway/Fallback/Plan.antt =====
-- What a run of `execute` comes to, against the list of the models that may be tried.
use mathlib.Core.List.{append-nil, append_assoc}
use ai_agent_code.Common.{
  ◌≢◌, ◌⊎◌, ◌≡◌, refl, Bool, true, false, not, List, [], ◌∷◌, ◌++◌, Option, none, some, String,
  string_key, elem, if◌then◌else◌, keep, Bool-cases, inl, inr, arith,
}
use ai_agent_code.Gateway.Fallback.{
  FallbackChain, get_chain, resolve_model, first_available, Attempt, success, failure, Outcome,
  answered, exhausted, try_chain, execute,
}

-- The requested model and its fallbacks, without the models that have failed before.
abbrev pub plan : FallbackChain → String → List String → List String
plan f model skipped = keep (λ m. not (elem m skipped)) (model ∷ get_chain f model)

abbrev pub head? : List String → Option String
head? [] = none
head? (m ∷ ms) = some m

first_available-head? :
    (skipped ms : List String)
    → first_available skipped ms ≡ head? (keep (λ m. not (elem m skipped)) ms)
unfolding first_available
first_available-head? skipped [] = refl
first_available-head? skipped (m ∷ ms) = ground (arith, first_available-head? skipped ms)

-- The pre-flight check names the first model of the plan, or none when the plan is empty.
pub resolve_model-plan :
    (f : FallbackChain) (model : String) (skipped : List String)
    → resolve_model f model skipped ≡ head? (plan f model skipped)
unfolding resolve_model
resolve_model-plan f model skipped =
    ground (arith, first_available-head? skipped (get_chain f model))

-- The metadata of the answer of `m`, when the models before it in the plan have failed.
abbrev pub tag_of : String → Bool → List String → String → Option (String × List String)
tag_of model direct [] m = if direct then none else some (model, m ∷ [])
tag_of model direct (b ∷ bs) m = some (model, (b ∷ bs) ++ m ∷ [])

module _ {W R E : Type 0} (execute_fn : W → String → W × Attempt R E) where
  -- The models are called in this order, each fails, and the world goes from the first state to
  -- the second.
  abbrev pub AllFail : W → List String → W → Type 0
  AllFail w [] w' = w ≡ w'
  AllFail w (m ∷ ms) w' =
      (e : E) × ((execute_fn w m).1 ≡ failure e) × AllFail (execute_fn w m).0 ms w'

  AllFail-snoc :
      (w w' : W) (ms : List String) (m : String) (e : E)
      → AllFail w ms w'
      → (execute_fn w' m).1 ≡ failure e
      → AllFail w (ms ++ m ∷ []) (execute_fn w' m).0
  AllFail-snoc w w' [] m e h f = rw h (e, f, refl)
  AllFail-snoc w w' (n ∷ ms) m e (d, g, h) f = (d, g, AllFail-snoc (execute_fn w n).0 w' ms m e h f)

  -- What the outcome says, for a request of `model` whose plan is `ms`. `direct` tells whether the
  -- first of the plan is the model itself.
  abbrev pub Explains : String → Bool → List String → W → W × Outcome R E → Type 0
  Explains model direct ms w (w', answered r tag) =
      (before : List String) × (m : String) × (after : List String) × (ms ≡ before ++ m ∷ after)
      × (w'' : W) × AllFail w before w''
      × (execute_fn w'' m ≡ (w', success r))
      × (tag ≡ tag_of model direct before m)
  Explains model direct ms w (w', exhausted original tried last_error) =
      (original ≡ model) × (tried ≡ ms) × AllFail w ms w'

  Attempt-cases : (a : Attempt R E) → ((r : R) × (a ≡ success r)) ⊎ ((e : E) × (a ≡ failure e))
  Attempt-cases (success r) = inl (r, refl)
  Attempt-cases (failure e) = inr (e, refl)

  tag_of-later :
      (model : String) (direct : Bool) (done : List String) (m : String)
      → (direct ≡ false) ⊎ (done ≢ [])
      → ◌≡◌ {A = Option (String × List String)}
          (some (model, done ++ m ∷ []))
          (tag_of model direct done m)
  tag_of-later model direct [] m (inl e) = rw e refl
  tag_of-later model direct [] m (inr ne) = absurd (ne refl)
  tag_of-later model direct (b ∷ bs) m d = refl

  snoc-ne-nil : (done : List String) (m : String) → done ++ m ∷ [] ≢ []
  snoc-ne-nil [] m = λ e. cc
  snoc-ne-nil (b ∷ bs) m = λ e. cc

  -- The loop, entered in state `w` after the models `done` have failed from state `w₀` on.
  try_chain-Explains :
      (model : String) (skipped ms done : List String) (last_error : Option E) (w₀ w : W)
      → (direct : Bool) → ((direct ≡ false) ⊎ (done ≢ []))
      → AllFail w₀ done w
      → Explains model direct
          (done ++ keep (λ m. not (elem m skipped)) ms)
          w₀
          (try_chain execute_fn model skipped ms done last_error w)
  unfolding try_chain
  try_chain-Explains model skipped [] done last_error w₀ w direct d h =
      rw append-nil (refl, refl, h)
  try_chain-Explains model skipped (m ∷ ms) done last_error w₀ w direct d h =
      let rest = keep (λ (n : String). not (elem n skipped)) ms in
      let w' = (execute_fn w m).0 in
      elim (Bool-cases (elem m skipped)) [
        | inl e ↦ rw e (try_chain-Explains model skipped ms done last_error w₀ w direct d h)
        | inr e ↦ rw e (elim (Attempt-cases (execute_fn w m).1) [
          | inl (r, f) ↦
              rw f (done, m, rest, refl, w, h, λ i. (w', f i), tag_of-later model direct done m d)
          | inr (x, f) ↦ rw f (
              rw (append_assoc done (m ∷ []) rest) at (
                try_chain-Explains model skipped ms (done ++ m ∷ []) (some x) w₀ w' direct
                  (inr (snoc-ne-nil done m)) (AllFail-snoc w₀ w done m x h f)))
        ])
      ]

  module _ (f : FallbackChain) (model : String) (skipped : List String) (w : W) where
    execute_skipped :
        elem model skipped ≡ true
        → execute execute_fn f model skipped w
          ≡ try_chain execute_fn model skipped (get_chain f model) [] none w
    unfolding execute
    execute_skipped e = rw e refl

    execute_direct :
        {r : R}
        → elem model skipped ≡ false
        → (execute_fn w model).1 ≡ success r
        → execute execute_fn f model skipped w ≡ ((execute_fn w model).0, answered r none)
    unfolding execute
    execute_direct e g = rw e (rw g refl)

    execute_failed :
        {x : E}
        → elem model skipped ≡ false
        → (execute_fn w model).1 ≡ failure x
        → execute execute_fn f model skipped w
          ≡ try_chain execute_fn model skipped
              (get_chain f model)
              (model ∷ [])
              (some x)
              (execute_fn w model).0
    unfolding execute
    execute_failed e g = rw e (rw g refl)

  -- `execute` calls the models of its plan in order, once each, and no other: the answer is that
  -- of the first that does not fail, tagged with the request's model and the models tried unless
  -- the model itself gave it; and when all of them fail the error names them all.
  pub execute-Explains :
      (f : FallbackChain) (model : String) (skipped : List String) (w : W)
      → Explains model
          (not (elem model skipped))
          (plan f model skipped)
          w
          (execute execute_fn f model skipped w)
  execute-Explains f model skipped w =
      let rest = keep (λ (n : String). not (elem n skipped)) (get_chain f model) in
      let w' = (execute_fn w model).0 in
      elim (Bool-cases (elem model skipped)) [
        | inl e ↦
            rw (execute_skipped f model skipped w e, e)
              (try_chain-Explains model skipped (get_chain f model) [] none w w false (inl refl)
                refl)
        | inr e ↦ elim (Attempt-cases (execute_fn w model).1) [
          | inl (r, g) ↦
              rw (execute_direct f model skipped w e g, e)
                ([], model, rest, refl, w, refl, λ i. (w', g i), refl)
          | inr (x, g) ↦
              rw (execute_failed f model skipped w e g, e)
                (try_chain-Explains model skipped (get_chain f model) (model ∷ []) (some x) w w'
                  true (inr (snoc-ne-nil [] model)) (x, g, refl))
        ]
      ]
