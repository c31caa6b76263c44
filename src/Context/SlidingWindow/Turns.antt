-- ===== src/Context/SlidingWindow/Turns.antt =====
-- src/domain/context_management/sliding_window.py: `truncate_by_turns` keeps whole turns, the last ones.
use ai_agent_code.Common.{
  ℕ, zero, suc, ◌-◌, min, ◌≡◌, inl, inr, refl, sym, ap, ◌∙◌, Bool, ◌&&◌, List, [], ◌∷◌, ◌++◌, arith,
  if◌then◌else◌, ltb, ◌==◌, length, drop, take, keep, slice_last, Bool-cases, string_key, nat_key,
}
use mathlib.Core.List.{append_assoc}
use ai_agent_code.Common.{length-drop}
use ai_agent_code.Context.SlidingWindow.{
  Message, opens_turn, is_system, is_other, group, turns_of, concat, truncate_by_turns,
}

module _ {ℓ} {A : Type ℓ} where
  take-drop : (n : ℕ) (xs : List A) → take n xs ++ drop n xs ≡ xs
  take-drop zero xs = refl
  take-drop (suc n) [] = refl
  take-drop (suc n) (x ∷ xs) = ap (λ ys. x ∷ ys) (take-drop n xs)

module _ {A : Type 0} where
  concat-append : (ts us : List (List (Message A))) → concat (ts ++ us) ≡ concat ts ++ concat us
  unfolding concat
  concat-append [] us = refl
  concat-append (t ∷ ts) us =
      rw (concat-append ts us) (sym (append_assoc t (concat ts) (concat us)))

  concat-group : (turn ms : List (Message A)) → concat (group turn ms) ≡ turn ++ ms
  unfolding concat group
  concat-group [] [] = refl
  concat-group (c ∷ turn) [] = refl
  concat-group [] (m ∷ ms) = concat-group (m ∷ []) ms
  concat-group (c ∷ turn) (m ∷ ms) =
      let closed = ap (λ x. c ∷ turn ++ x) (concat-group (m ∷ []) ms) in
      let longer = concat-group (c ∷ turn ++ m ∷ []) ms ∙ append_assoc (c ∷ turn) (m ∷ []) ms in
      elim (Bool-cases (opens_turn m)) [ inl b ↦ rw b closed | inr b ↦ rw b longer ]

  -- The turns of messages, one after the other, are the messages.
  pub concat-turns_of : (ms : List (Message A)) → concat (turns_of ms) ≡ ms
  unfolding turns_of
  concat-turns_of ms = concat-group [] ms

  -- The last turns of a list.
  last-turns :
      (n : ℕ) (ts : List (List (Message A)))
      → (dropped : List (List (Message A))) × (lasts : List (List (Message A))) × (ts
          ≡ dropped ++ lasts)
        × ((if ltb n (length ts) then slice_last n ts else ts) ≡ lasts)
        × (length lasts ≡ (if n == 0 then length ts else min n (length ts)))
  last-turns n ts = elim (Bool-cases (ltb 0 n && ltb n (length ts))) [
    | inl b ↦
        let k = length ts - n in
        (take k ts, drop k ts, sym (take-drop k ts), ground arith, ground (arith, length-drop k ts))
    | inr b ↦ ([], ts, refl, ground arith, ground arith)
  ]

  -- `truncate_by_turns` splits the other messages into turns without loss, drops the oldest turns and
  -- returns the last ones whole after the system messages that it preserves: `max_turns` of them, or
  -- all when there are fewer, and all as well when `max_turns` is 0.
  pub truncate_by_turns-last :
      (messages : List (Message A)) (max_turns : ℕ) (preserve_system : Bool)
      → (dropped : List (List (Message A))) × (lasts : List (List (Message A))) × (turns_of
            (keep is_other messages)
          ≡ dropped ++ lasts)
        × (keep is_other messages ≡ concat dropped ++ concat lasts)
        × (truncate_by_turns messages max_turns preserve_system
            ≡ (if preserve_system then keep is_system messages else []) ++ concat lasts)
        × (length lasts ≡ (
            if max_turns == 0
            then length (turns_of (keep is_other messages))
            else min max_turns (length (turns_of (keep is_other messages)))))
  unfolding truncate_by_turns
  truncate_by_turns-last messages max_turns preserve_system =
      let ts = turns_of (keep is_other messages) in
      let (dropped, lasts, e, r, l) = last-turns max_turns ts in
      let c =
        sym (concat-turns_of (keep is_other messages))
        ∙ ap concat e
        ∙ concat-append dropped lasts in
      (dropped, lasts, e, c, rw r refl, l)
