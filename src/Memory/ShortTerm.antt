-- ===== src/Memory/ShortTerm.antt =====
-- src/memory/short_term.py: `ShortTermMemory`, the sliding window of a conversation.
-- The token counter that the caller injects is the parameter `count_tokens`; the metadata and the
-- time of an entry are not read by any operation, and are left out.
mod Eviction
mod Accounting
mod Tests
use ai_agent_code.Common.{
  ℕ, zero, suc, ◌+◌, ◌-◌, ◌*◌, ◌≤◌, ◌<◌, min, max, ◌≡◌, ◌≢◌, ◌⊎◌, ◌↔◌, inl, inr, refl, sym, ap, ◌∙◌,
  Bool, true, false, not, ◌&&◌, ◌||◌, Option, none, some, List, [], ◌∷◌, ◌++◌, map, reverse, arith,
  String, if◌then◌else◌, leb, ltb, ◌==◌, ◌≟◌, elem, length, drop, keep, count, get_last?,
  slice_last, All, Bool-cases, Option-cases, Key, string_key, nat_key,
}

pub record StmEntry : Type 0 where
  pub role : String
  pub content : String
  pub token_count : ℕ

pub record ShortTermMemory : Type 0 where
  pub max_tokens : ℕ
  pub buffer : List StmEntry
  pub total_tokens : ℕ
  pub system_message : Option StmEntry

-- `__init__`
pub init : ℕ → ShortTermMemory
init budget = record { max_tokens = budget; buffer = []; total_tokens = 0; system_message = none }

-- The loop of `_evict_if_needed`: the tokens and the buffer afterwards.
pub evict : ℕ → ℕ → List StmEntry → ℕ × List StmEntry
evict budget total [] = (total, [])
evict budget total (e ∷ es) =
    let rest = evict budget (total - e.token_count) es in
    if ltb budget total && ltb 4 (length (e ∷ es)) then rest else (total, e ∷ es)

-- `_evict_if_needed`
pub evict_if_needed : ShortTermMemory → ShortTermMemory
unfolding evict
evict_if_needed m =
    let (total, buffer) = evict m.max_tokens m.total_tokens m.buffer in
    record m { total_tokens = total; buffer = buffer }

module _ (count_tokens : String → ℕ) where
  abbrev pub entry : String → String → StmEntry
  entry role content = record { role = role; content = content; token_count = count_tokens content }

  -- `add`
  pub add : ShortTermMemory → String → String → ShortTermMemory
  unfolding evict_if_needed
  add m role content =
      let e = entry role content in
      if role ≟ "system"
      then record m { system_message = some e; total_tokens = m.total_tokens + e.token_count }
      else evict_if_needed
          (record m { buffer = m.buffer ++ e ∷ []; total_tokens = m.total_tokens + e.token_count })

  -- `add_batch`
  pub add_batch : ShortTermMemory → List (String × String) → ShortTermMemory
  unfolding add
  add_batch m [] = m
  add_batch m ((role, content) ∷ ms) = add_batch (add m role content) ms

-- `get_messages`, as the entries whose role and content it returns.
pub get_messages : ShortTermMemory → List StmEntry
get_messages m = elim m.system_message [ none ↦ m.buffer | some e ↦ e ∷ m.buffer ]

-- `get_recent`
pub get_recent : ShortTermMemory → ℕ → List StmEntry
unfolding get_messages
get_recent m n =
    let messages = get_messages m in
    if ltb n (length messages) then slice_last n messages else messages

-- `get_turn_count`
pub get_turn_count : ShortTermMemory → ℕ
get_turn_count m = count (λ e. e.role ≟ "user") m.buffer

-- `clear`
pub clear : ShortTermMemory → ShortTermMemory
clear m = record m { buffer = []; total_tokens = 0; system_message = none }

-- `clear_except_system`
pub clear_except_system : ShortTermMemory → ShortTermMemory
clear_except_system m = record m {
  buffer = [];
  total_tokens = elim m.system_message [ none ↦ 0 | some e ↦ e.token_count ];
}

-- `message_count`
pub message_count : ShortTermMemory → ℕ
message_count m = length m.buffer + elim m.system_message [ none ↦ 0 | some _ ↦ 1 ]

-- A call that changes the memory.
pub data Call : Type 0 where
  adds : String → String → Call
  clears keeps_system : Call

module _ (count_tokens : String → ℕ) where
  pub step : ShortTermMemory → Call → ShortTermMemory
  unfolding add clear clear_except_system
  step m (adds role content) = add count_tokens m role content
  step m clears = clear m
  step m keeps_system = clear_except_system m

  pub run : ShortTermMemory → List Call → ShortTermMemory
  unfolding step
  run m [] = m
  run m (c ∷ cs) = run (step m c) cs
