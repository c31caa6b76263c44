-- ===== src/Memory/ShortTerm/Accounting.antt =====
-- src/memory/short_term.py: what the memory keeps of a conversation, and what it counts.
use ai_agent_code.Common.{
  get_last?-append, ℕ, ◌+◌, ◌≤◌, ◌<◌, ◌≡◌, ◌⊎◌, inl, inr, refl, sym, ap, ◌∙◌, true, false, Option,
  none, some, List, [], ◌∷◌, ◌++◌, arith, String, if◌then◌else◌, ◌≟◌, length, get_last?, Bool-cases,
  string_key, nat_key,
}
use mathlib.Core.List.{append_assoc}
use ai_agent_code.Memory.ShortTerm.{
  StmEntry, ShortTermMemory, init, evict_if_needed, entry, add, clear, clear_except_system, Call,
  adds, clears, keeps_system, step, run,
}
use ai_agent_code.Memory.ShortTerm.Eviction.{
  tokens, tokens-append, last_tokens, evict-Left, get_last?-evict,
}

-- The tokens of the system message, if there is one.
pub system_tokens : Option StmEntry → ℕ
system_tokens none = 0
system_tokens (some e) = e.token_count

module _ (count_tokens : String → ℕ) where
  -- The messages since the last clearing, other than the system's.
  pub conversation : List StmEntry → List Call → List StmEntry
  conversation log [] = log
  conversation log (adds role content ∷ cs) =
      if role ≟ "system"
      then conversation log cs
      else conversation (log ++ entry count_tokens role content ∷ []) cs
  conversation log (clears ∷ cs) = conversation [] cs
  conversation log (keeps_system ∷ cs) = conversation [] cs

  -- The tokens counted for system messages: those of each one added since everything was cleared, or,
  -- since all but the system was, of the one kept and of those added afterwards. The second
  -- number is that of the message in force.
  pub charged : ℕ → ℕ → List Call → ℕ
  charged c s [] = c
  charged c s (adds role content ∷ cs) =
      if role ≟ "system"
      then charged (c + count_tokens content) (count_tokens content) cs
      else charged c s cs
  charged c s (clears ∷ cs) = charged 0 0 cs
  charged c s (keeps_system ∷ cs) = charged s s cs

-- The buffer is the end of a conversation, and the total counts it and a charge.
pub record Accounts (log : List StmEntry) (c s : ℕ) (m : ShortTermMemory) : Type 0 where
  pub dropped : List StmEntry
  pub suffix : log ≡ dropped ++ m.buffer
  pub exact : m.total_tokens ≡ tokens m.buffer + c
  pub system : s ≡ system_tokens m.system_message

kept_tokens :
    (o : Option StmEntry) (s : ℕ)
    → s ≡ system_tokens o
    → elim o as (λ _. ℕ) [ none ↦ 0 | some e ↦ e.token_count ] ≡ 0 + s
unfolding system_tokens
kept_tokens none s h = omega arith
kept_tokens (some e) s h = omega arith

module _ (count_tokens : String → ℕ) where
  -- The memory before the eviction that ends an `add`.
  longer : ShortTermMemory → StmEntry → ShortTermMemory
  longer m e = record m {
    buffer = m.buffer ++ e ∷ [];
    total_tokens = m.total_tokens + e.token_count;
  }

  add-system :
      (m : ShortTermMemory) (role content : String)
      → (role ≟ "system") ≡ true
      → add count_tokens m role content ≡ record m {
        system_message = some (entry count_tokens role content);
        total_tokens = m.total_tokens + count_tokens content;
      }
  unfolding add
  add-system m role content e = rw e refl

  add-other :
      (m : ShortTermMemory) (role content : String)
      → (role ≟ "system") ≡ false
      → add count_tokens m role content
        ≡ evict_if_needed (longer m (entry count_tokens role content))
  unfolding add longer
  add-other m role content e = rw e refl

  longer-exact :
      (m : ShortTermMemory) (e : StmEntry) (c : ℕ)
      → m.total_tokens ≡ tokens m.buffer + c
      → (longer m e).total_tokens ≡ tokens (longer m e).buffer + c
  unfolding longer
  longer-exact m e c h =
      let one : tokens (e ∷ []) ≡ e.token_count = (unfold tokens in omega arith) in
      omega (arith, tokens-append m.buffer (e ∷ []), h)

  evict-Accounts :
      (log : List StmEntry) (c s : ℕ) (m : ShortTermMemory) (e : StmEntry)
      → Accounts log c s m
      → Accounts (log ++ e ∷ []) c s (evict_if_needed (longer m e))
  unfolding evict_if_needed longer
  evict-Accounts log c s m e a =
      let l =
        evict-Left m.max_tokens c (m.total_tokens + e.token_count) (m.buffer ++ e ∷ [])
          (unfold longer in longer-exact m e c a.exact) in
      record {
        dropped = a.dropped ++ l.dropped;
        suffix = rw a.suffix (
            append_assoc a.dropped m.buffer (e ∷ [])
            ∙ ap (λ (xs : List StmEntry). a.dropped ++ xs) l.suffix
            ∙ sym (append_assoc a.dropped l.dropped _));
        exact = l.exact;
        system = a.system;
      }

  keep_system-Accounts :
      (log : List StmEntry) (c s : ℕ) (m : ShortTermMemory)
      → Accounts log c s m
      → Accounts [] s s (clear_except_system m)
  unfolding clear_except_system tokens
  keep_system-Accounts log c s m a = record {
    dropped = [];
    suffix = refl;
    exact = kept_tokens m.system_message s a.system;
    system = a.system;
  }

  evicted-fits :
      (m : ShortTermMemory) (e : StmEntry) (c : ℕ)
      → m.total_tokens ≡ tokens m.buffer + c
      → let m' = evict_if_needed (longer m e) in
        ((m'.total_tokens ≤ m'.max_tokens) ⊎ (length m'.buffer ≤ 4))
        × (get_last? m'.buffer ≡ some e)
        × (dropped : List StmEntry) × (m.buffer ++ e ∷ [] ≡ dropped ++ m'.buffer)
        × ((dropped ≡ []) ⊎ (m.max_tokens < m'.total_tokens + last_tokens dropped))
  unfolding evict_if_needed longer
  evicted-fits m e c h =
      let l =
        evict-Left m.max_tokens c (m.total_tokens + e.token_count) (m.buffer ++ e ∷ [])
          (unfold longer in longer-exact m e c h) in
      (
        l.fits,
        get_last?-evict m.max_tokens (m.total_tokens + e.token_count) (m.buffer ++ e ∷ [])
            ∙ get_last?-append m.buffer e,
        l.dropped,
        l.suffix,
        l.needed,
      )

  run-Accounts_from :
      (log : List StmEntry) (c s : ℕ) (m : ShortTermMemory) (cs : List Call)
      → Accounts log c s m
      → (s' : ℕ) × Accounts
          (conversation count_tokens log cs)
          (charged count_tokens c s cs)
          s'
          (run count_tokens m cs)
  unfolding run step conversation charged
  run-Accounts_from log c s m [] a = (s, a)
  run-Accounts_from log c s m (adds role content ∷ cs) a = elim (Bool-cases (role ≟ "system")) [
    | inl e ↦
        rw (add-system m role content e, e)
          (run-Accounts_from log (c + count_tokens content) (count_tokens content) _ cs (
            unfold system_tokens in
            record {
              dropped = a.dropped;
              suffix = a.suffix;
              exact = omega (arith, a.exact);
              system = refl;
            }))
    | inr e ↦
        rw (add-other m role content e, e)
          (run-Accounts_from (log ++ entry count_tokens role content ∷ []) c s _ cs
            (evict-Accounts log c s m (entry count_tokens role content) a))
  ]
  run-Accounts_from log c s m (clears ∷ cs) a = run-Accounts_from [] 0 0 (clear m) cs (
      unfold clear in
      unfold tokens in
      unfold system_tokens in
      record { dropped = []; suffix = refl; exact = omega arith; system = refl })
  run-Accounts_from log c s m (keeps_system ∷ cs) a =
      run-Accounts_from [] s s (clear_except_system m) cs (keep_system-Accounts log c s m a)

  -- After any calls, the buffer is the end of the conversation since the last clearing, and the total
  -- is the tokens of the buffer and those charged for system messages; each message of the system
  -- is charged, also one that was replaced.
  pub run-Accounts :
      (budget : ℕ) (cs : List Call)
      → (s : ℕ) × Accounts
          (conversation count_tokens [] cs)
          (charged count_tokens 0 0 cs)
          s
          (run count_tokens (init budget) cs)
  unfolding init
  run-Accounts budget cs = run-Accounts_from [] 0 0 (init budget) cs (
      unfold tokens in
      unfold system_tokens in
      record { dropped = []; suffix = refl; exact = omega arith; system = refl })

  -- A message of another role than "system" that is added after any calls is kept, as the last one of
  -- the buffer; unless at most four messages are
  -- left the total is within the budget; and the messages dropped are the oldest, and no more of
  -- them than needed: with the last one dropped the total would be over the budget.
  pub add-fits :
      (budget : ℕ) (cs : List Call) (role content : String)
      → (role ≟ "system") ≡ false
      → let before = run count_tokens (init budget) cs in
        let m = add count_tokens before role content in
        ((m.total_tokens ≤ m.max_tokens) ⊎ (length m.buffer ≤ 4))
        × (get_last? m.buffer ≡ some (entry count_tokens role content))
        × (dropped : List StmEntry) × (before.buffer ++ entry count_tokens role content ∷ []
            ≡ dropped ++ m.buffer)
        × ((dropped ≡ []) ⊎ (before.max_tokens < m.total_tokens + last_tokens dropped))
  add-fits budget cs role content e =
      let m = run count_tokens (init budget) cs in
      let x = entry count_tokens role content in
      rw (add-other m role content e) (evicted-fits m x _ (run-Accounts budget cs).1.exact)
