-- ===== src/Context/SlidingWindow/Suffix.antt =====
-- src/domain/context_management/sliding_window.py: `truncate` keeps the newest messages that fit.
use ai_agent_code.Common.{
  subst, ℕ, ◌+◌, ◌-◌, ◌≤◌, ◌<◌, ◌≡◌, inl, inr, refl, sym, ap, ◌∙◌, Bool, true, false, List, [], ◌∷◌,
  ◌++◌, reverse, arith, if◌then◌else◌, leb, keep, Bool-cases, string_key, nat_key,
}
use mathlib.Core.List.{reverse-cons, reverse-append, reverse-reverse}
use ai_agent_code.Context.SlidingWindow.Trimming.{
  IsTrimmed, trim_message-IsTrimmed, IsTrimmed-reverse,
}
use ai_agent_code.Context.SlidingWindow.{
  Content, Message, is_system, is_other, count_message, sum_messages, kept, truncate,
}

module _ {A : Type 0} (counter : List A → ℕ) (str : Content A → List A) (mark : List A) where
  -- The next message, if any, does not fit after `used` tokens.
  unfoldable pub IsFull : ℕ → ℕ → List (Message A) → Type 0
  IsFull budget used [] = Unit
  IsFull budget used (m ∷ ms) = budget < used + count_message counter str m

  -- What is kept of messages, the newest first: as many of the newest as the budget has room for, and
  -- then what is left of the next one after trimming.
  unfoldable pub IsCut : ℕ → List (Message A) → List (Message A) → Type 0
  IsCut budget messages result =
      (newer : List (Message A)) × (older : List (Message A)) × (trimmed : List (Message A))
      × (messages ≡ newer ++ older)
      × (result ≡ newer ++ trimmed)
      × (sum_messages counter str newer ≤ budget)
      × IsTrimmed mark (budget - sum_messages counter str newer) older trimmed
      × IsFull budget (sum_messages counter str newer) older

  shift-IsFull :
      (budget used tokens n : ℕ) (ms : List (Message A))
      → used + tokens ≤ budget
      → IsFull (budget - (used + tokens)) n ms
      → IsFull (budget - used) (tokens + n) ms
  unfolding IsFull
  shift-IsFull budget used tokens n [] h f = tt
  shift-IsFull budget used tokens n (m ∷ ms) h f = omega arith

  kept-stop :
      (budget used : ℕ) (m : Message A) (ms : List (Message A))
      → leb (used + count_message counter str m) budget ≡ false
      → IsTrimmed mark (budget - used) (m ∷ ms) (kept counter str mark budget used (m ∷ ms))
  unfolding kept
  kept-stop budget used m ms b = rw b (trim_message-IsTrimmed mark (budget - used) m ms)

  kept-next :
      (budget used : ℕ) (m : Message A) (ms : List (Message A))
      → leb (used + count_message counter str m) budget ≡ true
      → kept counter str mark budget used (m ∷ ms)
        ≡ m ∷ kept counter str mark budget (used + count_message counter str m) ms
  unfolding kept
  kept-next budget used m ms b = rw b refl

  same_left :
      {tokens left : ℕ} (older trimmed : List (Message A))
      → tokens ≡ left
      → IsTrimmed mark tokens older trimmed
      → IsTrimmed mark left older trimmed
  same_left older trimmed e t = subst (λ n. IsTrimmed mark n older trimmed) e t

  kept-IsCut :
      (budget used : ℕ) (ms : List (Message A))
      → used ≤ budget
      → IsCut (budget - used) ms (kept counter str mark budget used ms)
  unfolding IsCut IsFull sum_messages
  kept-IsCut budget used [] h =
      ([], [], [], refl, unfold kept in refl, omega arith, unfold IsTrimmed in refl, tt)
  kept-IsCut budget used (m ∷ ms) h =
      elim (Bool-cases (leb (used + count_message counter str m) budget)) [
        | inl b ↦
            let c = count_message counter str m in
            let (newer, older, trimmed, e, r, s, l, o) =
              kept-IsCut budget (used + c) ms (ground arith) in
            (
              m ∷ newer,
              older,
              trimmed,
              ap (λ x. m ∷ x) e,
              kept-next budget used m ms b ∙ ap (λ x. m ∷ x) r,
              ground arith,
              same_left older trimmed (omega arith) l,
              shift-IsFull budget used c (sum_messages counter str newer) older (ground arith) o,
            )
        | inr b ↦
            let t = kept-stop budget used m ms b in
            (
              [],
              m ∷ ms,
              kept counter str mark budget used (m ∷ ms),
              refl,
              refl,
              omega arith,
              same_left (m ∷ ms) _ (omega arith) t,
              ground arith,
            )
      ]

  sum_messages-append :
      (xs ys : List (Message A))
      → sum_messages counter str (xs ++ ys)
        ≡ sum_messages counter str xs + sum_messages counter str ys
  unfolding sum_messages
  sum_messages-append [] ys = omega arith
  sum_messages-append (x ∷ xs) ys = omega (arith, sum_messages-append xs ys)

  sum_messages-reverse :
      (xs : List (Message A)) → sum_messages counter str (reverse xs) ≡ sum_messages counter str xs
  unfolding sum_messages
  sum_messages-reverse [] = refl
  sum_messages-reverse (x ∷ xs) =
      let a = sum_messages-append (reverse xs) (x ∷ []) in
      ap (sum_messages counter str) (reverse-cons x xs) ∙ omega (arith, a, sum_messages-reverse xs)

  kept_all-IsCut :
      (budget : ℕ) (ms : List (Message A)) → IsCut budget ms (kept counter str mark budget 0 ms)
  kept_all-IsCut budget ms =
      let e : budget - 0 ≡ budget = omega arith in
      subst (λ n. IsCut n ms (kept counter str mark budget 0 ms)) e
        (kept-IsCut budget 0 ms (omega arith))

  -- The same for messages in their order, the oldest first.
  kept-reverse :
      (budget : ℕ) (ms : List (Message A))
      → (older : List (Message A)) × (newer : List (Message A)) × (trimmed : List (Message A)) × (ms
          ≡ older ++ newer)
        × (reverse (kept counter str mark budget 0 (reverse ms)) ≡ trimmed ++ newer)
        × (sum_messages counter str newer ≤ budget)
        × IsTrimmed mark (budget - sum_messages counter str newer) (reverse older) trimmed
        × IsFull budget (sum_messages counter str newer) (reverse older)
  unfolding IsCut
  kept-reverse budget ms =
      let (newer, older, trimmed, e, r, s, l, o) = kept_all-IsCut budget (reverse ms) in
      let t = sum_messages-reverse newer in
      (
        reverse older,
        reverse newer,
        trimmed,
        sym (reverse-reverse ms) ∙ ap reverse e ∙ reverse-append newer older,
        ap reverse r
            ∙ reverse-append newer trimmed
            ∙ ap (λ x. x ++ reverse newer) (IsTrimmed-reverse mark _ older trimmed l),
        omega (arith, t, s),
        rw (reverse-reverse older, t) l,
        rw (reverse-reverse older, t) o,
      )

  -- Whenever the system messages leave room, `truncate` returns them, if they are to be preserved, and
  -- then of the other messages the newest, in their order: as many as fit in the tokens left. The next
  -- older message, if any, would not fit: it precedes them with its role and its first characters, three
  -- for each token still left, and the mark, or whole if it has no more than that; or it is left out
  -- when no token is left or its content is no string. No other message is kept.
  pub truncate-newest :
      (messages : List (Message A)) (max_tokens : ℕ) (preserve_system : Bool)
      → sum_messages counter str (keep is_system messages) < max_tokens
      → (older : List (Message A)) × (newer : List (Message A)) × (trimmed : List (Message A))
        × (keep is_other messages ≡ older ++ newer)
        × (truncate counter str mark messages max_tokens preserve_system
            ≡ (if preserve_system then keep is_system messages else []) ++ (trimmed ++ newer))
        × (sum_messages counter str newer
            ≤ max_tokens - sum_messages counter str (keep is_system messages))
        × IsTrimmed mark
            (max_tokens
              - sum_messages counter str (keep is_system messages)
              - sum_messages counter str newer)
            (reverse older)
            trimmed
        × IsFull
            (max_tokens - sum_messages counter str (keep is_system messages))
            (sum_messages counter str newer)
            (reverse older)
  unfolding truncate
  truncate-newest messages max_tokens preserve_system h =
      let system = keep is_system messages in
      let budget = max_tokens - sum_messages counter str system in
      let b : leb max_tokens (sum_messages counter str system) ≡ false = ground arith in
      let (older, newer, trimmed, e, r, s, l, f) = kept-reverse budget (keep is_other messages) in
      (older, newer, trimmed, e, rw (b, r) refl, s, l, f)
