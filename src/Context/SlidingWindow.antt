-- ===== src/Context/SlidingWindow.antt =====
-- src/domain/context_management/sliding_window.py: `SlidingWindowTruncator`.
-- A character is of the type `A`. The token counter is a parameter, for the model of the call, and so
-- are Python's text of a content that is no string and the default of `max_tokens`, the window of the
-- model. A message keeps its role and its content; other keys are passed on unread.
mod Trimming
mod Suffix
mod Turns
mod Tests
use ai_agent_code.Common.{
  ℕ, ℤ, pos, negsuc, diff, zero, suc, ◌+◌, ◌-◌, ◌*◌, ◌/◌, ◌≤◌, ◌<◌, min, max, ◌≡◌, ◌≢◌, ◌⊎◌, ◌↔◌,
  inl, inr, refl, sym, ap, ◌∙◌, Bool, true, false, not, ◌&&◌, ◌||◌, Option, none, some, List, [],
  ◌∷◌, ◌++◌, map, reverse, arith, String, if◌then◌else◌, leb, ltb, ◌==◌, ◌≟◌, elem, length, drop,
  take, keep, count, get_last?, slice_last, All, Bool-cases, Option-cases, Key, string_key, nat_key,
}

-- A part of a content that is a list: a dict of the type "text" with its text, a string, or another.
pub data Part (A : Type 0) : Type 0 where
  text_part raw_part : List A → Part A
  other_part : Part A

pub data Content (A : Type 0) : Type 0 where
  text : List A → Content A
  parts : List (Part A) → Content A
  other : Content A

pub record Message (A : Type 0) : Type 0 where
  pub role : Option String
  pub content : Content A

module _ {A : Type 0} where
  -- `msg.get("role") == role`
  pub has_role : String → Message A → Bool
  has_role role m = elim m.role [ none ↦ false | some r ↦ r ≟ role ]

  pub is_system : Message A → Bool
  unfolding has_role
  is_system m = has_role "system" m

  pub is_other : Message A → Bool
  unfolding is_system
  is_other m = not (is_system m)

module _ {A : Type 0} (counter : List A → ℕ) (str : Content A → List A) where
  -- The loop over the parts.
  count_parts : List (Part A) → ℕ
  count_parts [] = 0
  count_parts (text_part t ∷ ps) = counter t + count_parts ps
  count_parts (raw_part t ∷ ps) = counter t + count_parts ps
  count_parts (other_part ∷ ps) = count_parts ps

  -- `_count_message`
  count_content : Content A → ℕ
  unfolding count_parts
  count_content (text t) = counter t
  count_content (parts ps) =
      let total = count_parts ps in if ltb 0 total then total else counter (str (parts ps))
  count_content other = counter (str other)

  pub count_message : Message A → ℕ
  unfolding count_content
  count_message m = count_content m.content

  pub sum_messages : List (Message A) → ℕ
  sum_messages [] = 0
  sum_messages (m ∷ ms) = count_message m + sum_messages ms

-- `_trim_message`: `mark` is the text " ... [truncated]".
pub trim_message : {A : Type 0} → List A → Message A → ℕ → Option (Message A)
trim_message mark m max_tokens = if max_tokens == 0 then none else elim m.content [
  | text t ↦
      if leb (length t) (max_tokens * 3)
      then some m
      else some (record m { content = text (take (max_tokens * 3) t ++ mark) })
  | parts ps ↦ none
  | other ↦ none
]

module _ {A : Type 0} (counter : List A → ℕ) (str : Content A → List A) (mark : List A) where
  -- The loop over the messages, the newest first, with the tokens used.
  pub kept : ℕ → ℕ → List (Message A) → List (Message A)
  unfolding trim_message
  kept budget used [] = []
  kept budget used (m ∷ ms) =
      let tokens = count_message counter str m in
      let rest = kept budget (used + tokens) ms in
      if leb (used + tokens) budget
      then m ∷ rest
      else elim (trim_message mark m (budget - used)) [ none ↦ [] | some t ↦ t ∷ [] ]

  -- `truncate`
  pub truncate : List (Message A) → ℕ → Bool → List (Message A)
  unfolding kept is_system is_other sum_messages
  truncate messages max_tokens preserve_system =
      let system_msgs = keep is_system messages in
      let non_system_msgs = keep is_other messages in
      let system_tokens = sum_messages counter str system_msgs in
      if leb max_tokens system_tokens
      then system_msgs
      else (if preserve_system then system_msgs else [])
        ++ reverse (kept (max_tokens - system_tokens) 0 (reverse non_system_msgs))

module _ {A : Type 0} where
  -- `msg.get("role", "user") == "user"`
  pub opens_turn : Message A → Bool
  opens_turn m = elim m.role [ none ↦ true | some r ↦ r ≟ "user" ]

  -- The loop over the messages that groups them: the turn so far, and the turns in their order.
  pub group : List (Message A) → List (Message A) → List (List (Message A))
  unfolding opens_turn
  group [] [] = []
  group (m ∷ current_turn) [] = (m ∷ current_turn) ∷ []
  group [] (m ∷ ms) = group (m ∷ []) ms
  group (c ∷ current_turn) (m ∷ ms) =
      let closed = (c ∷ current_turn) ∷ group (m ∷ []) ms in
      let longer = group (c ∷ current_turn ++ m ∷ []) ms in if opens_turn m then closed else longer

  pub turns_of : List (Message A) → List (List (Message A))
  unfolding group
  turns_of messages = group [] messages

  pub concat : List (List (Message A)) → List (Message A)
  concat [] = []
  concat (t ∷ ts) = t ++ concat ts

  -- `truncate_by_turns`
  pub truncate_by_turns : List (Message A) → ℕ → Bool → List (Message A)
  unfolding turns_of is_system is_other concat
  truncate_by_turns messages max_turns preserve_system =
      let turns = turns_of (keep is_other messages) in
      (if preserve_system then keep is_system messages else [])
      ++ concat (if ltb max_turns (length turns) then slice_last max_turns turns else turns)
