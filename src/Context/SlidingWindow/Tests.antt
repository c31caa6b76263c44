-- ===== src/Context/SlidingWindow/Tests.antt =====
-- A conversation of four messages, and the theorems at concrete inputs.
use ai_agent_code.Common.{
  ℕ, ◌-◌, ◌≤◌, ◌<◌, ◌≡◌, refl, true, some, List, [], ◌∷◌, ◌++◌, reverse, arith, String,
  if◌then◌else◌, length, keep, string_key, nat_key,
}
use ai_agent_code.Context.SlidingWindow.{
  Message, Content, text, is_system, is_other, count_message, sum_messages, truncate,
  truncate_by_turns,
}
use ai_agent_code.Context.SlidingWindow.Trimming.{IsTrimmed}
use ai_agent_code.Context.SlidingWindow.Suffix.{IsFull, truncate-newest}

abbrev str : Content ℕ → List ℕ
str c = []

abbrev says : String → List ℕ → Message ℕ
says role t = record { role = some role; content = text t }

abbrev messages : List (Message ℕ)
messages =
    says "system" (1 ∷ 2 ∷ [])
    ∷ says "user" (3 ∷ 4 ∷ 5 ∷ [])
    ∷ says "assistant" (6 ∷ [])
    ∷ says "user" (7 ∷ 8 ∷ [])
    ∷ []

-- The oldest message is left out: after the newer ones there is no token left to trim it to.
newest :
    truncate length str [] messages 5 true
    ≡ says "system" (1 ∷ 2 ∷ []) ∷ says "assistant" (6 ∷ []) ∷ says "user" (7 ∷ 8 ∷ []) ∷ []
unfolding truncate count_message
newest = refl

-- A message is trimmed to three characters for each token left and the mark: five tokens for one.
over :
    truncate length str (0 ∷ 0 ∷ []) (says "user" (1 ∷ 2 ∷ 3 ∷ 4 ∷ 5 ∷ []) ∷ []) 1 true
    ≡ says "user" (1 ∷ 2 ∷ 3 ∷ 0 ∷ 0 ∷ []) ∷ []
unfolding truncate count_message
over = refl

-- To keep no turn is to keep all.
no_turns : truncate_by_turns messages 0 true ≡ messages
unfolding truncate_by_turns
no_turns = refl

-- With one token left the oldest message is trimmed to its three characters.
trimmed_oldest : truncate length str [] messages 6 true ≡ messages
unfolding truncate count_message
trimmed_oldest = refl

two_of_six : sum_messages length str (keep is_system messages) < 6
unfolding sum_messages is_system count_message
two_of_six = omega arith

truncate-newest_example :
    (older : List (Message ℕ)) × (newer : List (Message ℕ)) × (trimmed : List (Message ℕ)) × (keep
        is_other messages
      ≡ older ++ newer)
    × (truncate length str [] messages 6 true
        ≡ (if true then keep is_system messages else []) ++ (trimmed ++ newer))
    × (sum_messages length str newer ≤ 6 - sum_messages length str (keep is_system messages))
    × IsTrimmed []
        (6 - sum_messages length str (keep is_system messages) - sum_messages length str newer)
        (reverse older)
        trimmed
    × IsFull length str []
        (6 - sum_messages length str (keep is_system messages))
        (sum_messages length str newer)
        (reverse older)
truncate-newest_example = truncate-newest length str [] messages 6 true two_of_six
