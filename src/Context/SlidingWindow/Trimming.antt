-- ===== src/Context/SlidingWindow/Trimming.antt =====
-- src/domain/context_management/sliding_window.py: what `_trim_message` leaves of a message.
use ai_agent_code.Common.{
  ℕ, ◌*◌, ◌≤◌, ◌<◌, ◌≡◌, ◌≢◌, ◌⊎◌, inl, inr, refl, ap, false, zero, suc, List, [], ◌∷◌, ◌++◌,
  reverse, arith, leb, ◌==◌, length, take, Bool-cases, Option, none, some, String,
}
use ai_agent_code.Context.SlidingWindow.{Content, text, parts, other, Message, trim_message}

-- A list that is longer than `n` is its first `n` entries and some more.
take-split :
    {A : Type 0} (n : ℕ) (s : List A)
    → n < length s
    → (start : List A) × (rest : List A) × (s ≡ start ++ rest)
      × (0 < length rest)
      × (length start ≡ n)
      × (take n s ≡ start)
take-split zero s h = ([], s, refl, h, refl, refl)
take-split (suc n) [] h = absurd (omega arith)
take-split (suc n) (x ∷ s) h =
    let (start, rest, e, r, l, t) = take-split n s (omega arith) in
    (x ∷ start, rest, ap (λ y. x ∷ y) e, r, omega arith, ap (λ y. x ∷ y) t)

module _ {A : Type 0} (mark : List A) where
  -- What becomes of the first of the messages that do not fit, with so many tokens left: it is left
  -- out when no token is left or its content is no string; otherwise it is kept with its role, whole
  -- if it has at most three characters for each token, and else with as many and the mark.
  unfoldable pub IsTrimmed : ℕ → List (Message A) → List (Message A) → Type 0
  IsTrimmed tokens [] trimmed = trimmed ≡ []
  IsTrimmed tokens (m ∷ ms) [] = (tokens ≡ 0) ⊎ ((s : List A) → m.content ≢ text s)
  IsTrimmed tokens (m ∷ ms) (t ∷ ts) =
      (ts ≡ [])
      × (0 < tokens)
      × (t.role ≡ m.role)
      × (s : List A) × (m.content ≡ text s)
      × (((length s ≤ tokens * 3) × (t.content ≡ text s))
          ⊎ ((start : List A) × (rest : List A) × (s ≡ start ++ rest)
              × (0 < length rest)
              × (length start ≡ tokens * 3)
              × (t.content ≡ text (start ++ mark))))

  -- What the loop keeps of a message that it trims.
  abbrev pub as_list : Option (Message A) → List (Message A)
  as_list trimmed = elim trimmed [ none ↦ [] | some t ↦ t ∷ [] ]

  IsTrimmed-spent :
      (tokens : ℕ) (m : Message A) (ms : List (Message A))
      → tokens ≡ 0
      → IsTrimmed tokens (m ∷ ms) (as_list (trim_message mark m tokens))
  unfolding IsTrimmed
  IsTrimmed-spent tokens m ms z =
      let e : trim_message mark m tokens ≡ none = rw z (unfold trim_message in refl) in rw e (inl z)

  content-IsTrimmed :
      (tokens : ℕ) (role : Option String) (c : Content A) (ms : List (Message A))
      → (tokens == 0) ≡ false
      → let m : Message A = record { role = role; content = c } in
        IsTrimmed tokens (m ∷ ms) (as_list (trim_message mark m tokens))
  unfolding IsTrimmed trim_message
  content-IsTrimmed tokens role (text s) ms z = elim (Bool-cases (leb (length s) (tokens * 3))) [
    | inl b ↦ rw (z, b) (refl, ground arith, refl, s, refl, inl (ground arith, refl))
    | inr b ↦
        let (start, rest, e, r, l, t) = take-split (tokens * 3) s (ground arith) in
        rw (z, b)
          (
            refl,
            ground arith,
            refl,
            s,
            refl,
            inr (start, rest, e, r, l, ap (λ x. text (x ++ mark)) t),
          )
  ]
  content-IsTrimmed tokens role (parts ps) ms z = rw z (inr (λ s e. cc))
  content-IsTrimmed tokens role other ms z = rw z (inr (λ s e. cc))

  pub trim_message-IsTrimmed :
      (tokens : ℕ) (m : Message A) (ms : List (Message A))
      → IsTrimmed tokens (m ∷ ms) (as_list (trim_message mark m tokens))
  trim_message-IsTrimmed tokens m ms = elim (Bool-cases (tokens == 0)) [
    | inl z ↦ IsTrimmed-spent tokens m ms (ground arith)
    | inr z ↦ content-IsTrimmed tokens m.role m.content ms z
  ]

  pub IsTrimmed-reverse :
      (tokens : ℕ) (older trimmed : List (Message A))
      → IsTrimmed tokens older trimmed
      → reverse trimmed ≡ trimmed
  unfolding IsTrimmed
  IsTrimmed-reverse tokens [] trimmed e = rw e refl
  IsTrimmed-reverse tokens (m ∷ ms) [] h = refl
  IsTrimmed-reverse tokens (m ∷ ms) (t ∷ ts) h = rw h.0 refl
