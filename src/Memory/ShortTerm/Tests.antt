-- ===== src/Memory/ShortTerm/Tests.antt =====
-- Runs of the short-term memory, and the theorems at concrete inputs.
use ai_agent_code.Common.{
  ℕ, ◌+◌, ◌≤◌, ◌<◌, ◌≡◌, ◌⊎◌, refl, some, List, [], ◌∷◌, ◌++◌, String, length, get_last?,
  string_key, nat_key,
}
use ai_agent_code.Memory.ShortTerm.{
  StmEntry, init, entry, add, add_batch, get_recent, get_turn_count, message_count, Call, adds, run,
}
use ai_agent_code.Memory.ShortTerm.Eviction.{last_tokens}
use ai_agent_code.Memory.ShortTerm.Accounting.{
  conversation, charged, Accounts, run-Accounts, add-fits,
}

-- A counter that gives every text ten tokens.
abbrev ten : String → ℕ
ten text = 10

abbrev calls : List Call
calls =
    adds "system" "be brief"
    ∷ adds "user" "one"
    ∷ adds "assistant" "two"
    ∷ adds "user" "three"
    ∷ adds "assistant" "four"
    ∷ adds "system" "be kind"
    ∷ adds "user" "five"
    ∷ adds "user" "six"
    ∷ []

evicted : length (run ten (init 60) calls).buffer ≡ 4
unfolding run init
evicted = refl

-- The replaced message of the system is still counted.
counted_twice :
    (run ten (init 100) (adds "system" "be brief" ∷ adds "system" "be kind" ∷ [])).total_tokens ≡ 20
unfolding run init
counted_twice = refl

-- Asked for no message, `get_recent` returns them all.
all_of_them :
    length (get_recent (add_batch ten (init 100) (("user", "a") ∷ ("user", "b") ∷ [])) 0) ≡ 2
unfolding get_recent add_batch init
all_of_them = refl

turns : get_turn_count (run ten (init 100) calls) ≡ 4
unfolding get_turn_count run init
turns = refl

held : message_count (run ten (init 100) calls) ≡ 7
unfolding message_count run init
held = refl

run-Accounts_example :
    (s : ℕ) × Accounts
      (conversation ten [] calls)
      (charged ten 0 0 calls)
      s
      (run ten (init 60) calls)
run-Accounts_example = run-Accounts ten 60 calls

add-fits_example :
    let before = run ten (init 60) calls in
    let m = add ten before "user" "seven" in
    ((m.total_tokens ≤ m.max_tokens) ⊎ (length m.buffer ≤ 4))
    × (get_last? m.buffer ≡ some (entry ten "user" "seven"))
    × (dropped : List StmEntry) × (before.buffer ++ entry ten "user" "seven" ∷ []
        ≡ dropped ++ m.buffer)
    × ((dropped ≡ []) ⊎ (before.max_tokens < m.total_tokens + last_tokens dropped))
add-fits_example = add-fits ten 60 calls "user" "seven" refl
