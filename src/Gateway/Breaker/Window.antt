-- ===== src/Gateway/Breaker/Window.antt =====
-- `_prune_failures` forgets failures, and yet the breaker trips when one that forgets nothing would.
use ai_agent_code.Common.{
  refl, inr, inl, ◌∙◌, length-keep, keep-append, ◌⊎◌, ℕ, ◌≤◌, ◌≡◌, Bool, true, false, List, [], ◌∷◌,
  ◌++◌, arith, leb, keep, count, keep-keep, if◌then◌else◌,
}
use ai_agent_code.Gateway.Breaker.{
  init, reset, failure_count, on_success, before_call, on_failure, CircuitConfig, CircuitBreaker,
  CircuitState, closed, open_circuit, half_open, Call, asks, succeeds, fails, counts, resets,
  in_window, prune_failures, step,
}

-- The clock does not run backwards.
abbrev pub Rising : ℕ → List (ℕ × Call) → Type 0
Rising t [] = Unit
Rising t ((now, _) ∷ cs) = (t ≤ now) × Rising now cs

abbrev is_open : CircuitState → Bool
is_open closed = false
is_open open_circuit = true
is_open half_open = false

-- Whether the breaker is ever open during the calls.
pub opens : CircuitBreaker → List (ℕ × Call) → Bool
opens b [] = is_open b.state
opens b (c ∷ cs) = let rest = opens (step b c) cs in if is_open b.state then true else rest

-- A breaker that keeps the time of every failure: some failure has, with itself, enough failures
-- in the window that ends with it.
pub trips : CircuitConfig → List ℕ → List (ℕ × Call) → Bool
trips c h [] = false
trips c h ((now, fails) ∷ cs) =
    let h' = h ++ now ∷ [] in
    let rest = trips c h' cs in
    if leb c.failure_threshold (count (in_window c now) h') then true else rest
trips c h ((now, asks) ∷ cs) = trips c h cs
trips c h ((now, succeeds) ∷ cs) = trips c h cs
trips c h ((now, counts) ∷ cs) = trips c h cs
trips c h ((now, resets) ∷ cs) = trips c h cs

-- A closed breaker holds the failures of the history `h` that were in the window at time `t`.
record Tracks (c : CircuitConfig) (h : List ℕ) (t : ℕ) (b : CircuitBreaker) : Type 0 where
  same_config : b.config ≡ c
  is_closed : b.state ≡ closed
  window : b.failure_timestamps ≡ keep (in_window c t) h

keep-later :
    (c : CircuitConfig) (t now : ℕ) (h : List ℕ)
    → t ≤ now
    → keep (in_window c now) (keep (in_window c t) h) ≡ keep (in_window c now) h
keep-later c t now h le = keep-keep (in_window c now) (in_window c t) (λ ts e. ground arith) h

prune_failures-Tracks :
    (c : CircuitConfig) (h : List ℕ) (t now : ℕ) (b : CircuitBreaker)
    → Tracks c h t b
    → t ≤ now
    → Tracks c h now (prune_failures b now)
unfolding prune_failures
prune_failures-Tracks c h t now b k le = record {
  same_config = k.same_config;
  is_closed = k.is_closed;
  window = ground (arith, keep-later c t now h le);
}

-- A failure is counted with all earlier ones in its window, and trips the breaker or is remembered.
on_failure-Tracks :
    (c : CircuitConfig) (h : List ℕ) (t now : ℕ) (b : CircuitBreaker)
    → Tracks c h t b
    → t ≤ now
    → let h' = h ++ now ∷ [] in
      let b' = on_failure b now in
      ((leb c.failure_threshold (count (in_window c now) h') ≡ true) × (b'.state ≡ open_circuit))
      ⊎ ((leb c.failure_threshold (count (in_window c now) h') ≡ false) × Tracks c h' now b')
unfolding on_failure
on_failure-Tracks c h t now b k le = grind (
  arith,
  keep-later c t now h le,
  keep-append (in_window c now) (keep (in_window c t) h) (now ∷ []),
  keep-append (in_window c now) h (now ∷ []),
  length-keep (in_window c now) (h ++ now ∷ []),
)

Rising-earlier : (t now : ℕ) (cs : List (ℕ × Call)) → t ≤ now → Rising now cs → Rising t cs
Rising-earlier t now [] le r = tt
Rising-earlier t now (c ∷ cs) le r = (omega arith, r.1)

is_open-closed : (b : CircuitBreaker) → b.state ≡ closed → is_open b.state ≡ false
is_open-closed b e = rw e refl

opens-open :
    (b : CircuitBreaker) (cs : List (ℕ × Call)) → b.state ≡ open_circuit → opens b cs ≡ true
unfolding opens
opens-open b [] e = rw e refl
opens-open b (c ∷ cs) e = rw e refl

opens-closed :
    (b : CircuitBreaker) (c : ℕ × Call) (cs : List (ℕ × Call))
    → b.state ≡ closed
    → opens b (c ∷ cs) ≡ opens (step b c) cs
unfolding opens
opens-closed b c cs e = rw (is_open-closed b e)

module _ (c : CircuitConfig) where
  asks-Tracks :
      (h : List ℕ) (t now : ℕ) (b : CircuitBreaker)
      → Tracks c h t b
      → t ≤ now
      → Tracks c h now (step b (now, asks))
  unfolding step before_call
  asks-Tracks h t now b k le = grind (arith, prune_failures-Tracks c h t now b k le)

  idle-step :
      (h : List ℕ) (t now : ℕ) (b : CircuitBreaker)
      → Tracks c h t b
      → (step b (now, succeeds) ≡ b) × (step b (now, resets) ≡ b)
  unfolding step on_success reset
  idle-step h t now b k = (ground arith, ground arith)

  tracked-opens :
      (h : List ℕ) (t : ℕ) (b : CircuitBreaker) (cs : List (ℕ × Call))
      → Tracks c h t b
      → Rising t cs
      → opens b cs ≡ trips c h cs
  unfolding trips step failure_count
  tracked-opens h t b [] k r = unfold opens in is_open-closed b k.is_closed
  tracked-opens h t b ((now, asks) ∷ cs) k r =
      opens-closed b (now, asks) cs k.is_closed
      ∙ tracked-opens h now (step b (now, asks)) cs (asks-Tracks h t now b k r.0) r.1
  tracked-opens h t b ((now, succeeds) ∷ cs) k r =
      opens-closed b (now, succeeds) cs k.is_closed
      ∙ rw (idle-step h t now b k).0 (tracked-opens h t b cs k (Rising-earlier t now cs r.0 r.1))
  tracked-opens h t b ((now, resets) ∷ cs) k r =
      opens-closed b (now, resets) cs k.is_closed
      ∙ rw (idle-step h t now b k).1 (tracked-opens h t b cs k (Rising-earlier t now cs r.0 r.1))
  tracked-opens h t b ((now, counts) ∷ cs) k r =
      opens-closed b (now, counts) cs k.is_closed
      ∙ tracked-opens h now (step b (now, counts)) cs (prune_failures-Tracks c h t now b k r.0) r.1
  tracked-opens h t b ((now, fails) ∷ cs) k r =
      opens-closed b (now, fails) cs k.is_closed ∙ elim (on_failure-Tracks c h t now b k r.0) [
        | inl (over, opened) ↦ rw over (opens-open (on_failure b now) cs opened)
        | inr (under, kept) ↦
            rw under (tracked-opens (h ++ now ∷ []) now (on_failure b now) cs kept r.1)
      ]

-- A new breaker is open at some point of its calls, made at times that do not fall, exactly when
-- the breaker that forgets no failure is tripped by them.
pub opens-trips :
    (c : CircuitConfig) (t : ℕ) (cs : List (ℕ × Call))
    → Rising t cs
    → opens (init c t) cs ≡ trips c [] cs
unfolding init
opens-trips c t cs r =
    tracked-opens c [] t (init c t) cs
      (record { same_config = refl; is_closed = refl; window = refl }) r
