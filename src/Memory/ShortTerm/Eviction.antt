-- ===== src/Memory/ShortTerm/Eviction.antt =====
-- src/memory/short_term.py: what an eviction leaves.
use ai_agent_code.Common.{
  ℕ, ◌+◌, ◌-◌, ◌≤◌, ◌<◌, ◌≡◌, ◌⊎◌, inl, inr, refl, ap, ◌∙◌, ◌&&◌, List, [], ◌∷◌, ◌++◌, arith, ltb,
  length, get_last?, Bool-cases, string_key, nat_key,
}
use ai_agent_code.Memory.ShortTerm.{StmEntry, evict}

-- The tokens of some entries.
unfoldable pub tokens : List StmEntry → ℕ
tokens [] = 0
tokens (e ∷ es) = e.token_count + tokens es

pub tokens-append : (xs ys : List StmEntry) → tokens (xs ++ ys) ≡ tokens xs + tokens ys
unfolding tokens
tokens-append [] ys = omega arith
tokens-append (x ∷ xs) ys = omega (arith, tokens-append xs ys)

-- The tokens of the last entry.
pub last_tokens : List StmEntry → ℕ
last_tokens [] = 0
last_tokens (e ∷ []) = e.token_count
last_tokens (e ∷ e' ∷ es) = last_tokens (e' ∷ es)

-- A total and a buffer that an eviction leaves of some entries: the last of them, with their
-- tokens; the budget is kept unless at most four are left, and would not be with one more.
pub record Left (budget charged : ℕ) (es : List StmEntry) (total : ℕ) (buffer : List StmEntry)
    : Type 0 where
  pub dropped : List StmEntry
  pub suffix : es ≡ dropped ++ buffer
  pub exact : total ≡ tokens buffer + charged
  pub fits : (total ≤ budget) ⊎ (length buffer ≤ 4)
  pub needed : (dropped ≡ []) ⊎ (budget < total + last_tokens dropped)

last_tokens-cons : (e : StmEntry) (es : List StmEntry) → last_tokens es ≤ last_tokens (e ∷ es)
unfolding last_tokens
last_tokens-cons e [] = omega arith
last_tokens-cons e (e' ∷ es) = omega arith

-- One more entry dropped before the others.
needed-cons :
    (budget charged total total' : ℕ) (e : StmEntry) (es buffer : List StmEntry)
    (l : Left budget charged es total' buffer)
    → total ≡ tokens (e ∷ es) + charged
    → budget < total
    → budget < total' + last_tokens (e ∷ l.dropped)
unfolding tokens
needed-cons budget charged total total' e es buffer l h over = elim l.needed [
  | inl n ↦
      let same : es ≡ buffer = l.suffix ∙ ap (λ (xs : List StmEntry). xs ++ buffer) n in
      let kept = l.exact in rw n (unfold last_tokens in omega (arith, ap tokens same, h))
  | inr m ↦ omega (arith, last_tokens-cons e l.dropped)
]

pub evict-Left :
    (budget charged total : ℕ) (es : List StmEntry)
    → total ≡ tokens es + charged
    → Left budget charged es (evict budget total es).0 (evict budget total es).1
unfolding evict tokens
evict-Left budget charged total [] h = record {
  dropped = [];
  suffix = refl;
  exact = h;
  fits = inr (omega arith);
  needed = inl refl;
}
evict-Left budget charged total (e ∷ es) h =
    elim (Bool-cases (ltb budget total && ltb 4 (length (e ∷ es)))) [
      | inl b ↦
          let i = evict-Left budget charged (total - e.token_count) es (omega arith) in
          rw b (record {
            dropped = e ∷ i.dropped;
            suffix = ap (λ (xs : List StmEntry). e ∷ xs) i.suffix;
            exact = i.exact;
            fits = i.fits;
            needed = inr (needed-cons budget charged total _ e es _ i h (ground arith));
          })
      | inr b ↦ rw b (record {
        dropped = [];
        suffix = refl;
        exact = h;
        fits = ground arith;
        needed = inl refl;
      })
    ]

pub get_last?-evict :
    (budget total : ℕ) (es : List StmEntry) → get_last? (evict budget total es).1 ≡ get_last? es
unfolding evict
get_last?-evict budget total [] = refl
get_last?-evict budget total (e ∷ []) = ground arith
get_last?-evict budget total (e ∷ e' ∷ es) =
    let i = get_last?-evict budget (total - e.token_count) (e' ∷ es) in ground arith
