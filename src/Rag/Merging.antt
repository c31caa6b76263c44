-- ===== src/Rag/Merging.antt =====
-- src/rag/chunking/base.py: `BaseChunker.merge_small_chunks`.
-- The separator is the two line ends that the code writes between merged texts. The code changes the
-- chunk that it holds in `buffer`; nothing else reads that chunk before it is returned.
mod Groups
mod Tests
use ai_agent_code.Common.{
  ℕ, ℤ, pos, negsuc, diff, zero, suc, ◌+◌, ◌-◌, ◌*◌, ◌/◌, ◌≤◌, ◌<◌, min, max, ◌≡◌, ◌≢◌, ◌⊎◌, ◌↔◌,
  inl, inr, refl, sym, ap, ◌∙◌, Bool, true, false, not, ◌&&◌, ◌||◌, Option, none, some, List, [],
  ◌∷◌, ◌++◌, map, reverse, arith, String, if◌then◌else◌, leb, ltb, ◌==◌, ◌≟◌, elem, length, drop,
  take, keep, count, get_last?, slice_last, All, Bool-cases, Option-cases, Key, string_key, nat_key,
}
use ai_agent_code.Rag.Chunker.{Chunk, estimate_tokens}

-- `len(chunk.text) < min_chunk_size`
pub is_small : {A : Type 0} → ℕ → Chunk A → Bool
is_small min_chunk_size c = ltb (length c.text) min_chunk_size

-- A chunk merged into the buffer.
pub merged_into : {A : Type 0} → List A → Chunk A → Chunk A → Chunk A
merged_into separator buffer c =
    let text = buffer.text ++ separator ++ c.text in
    record buffer { text = text; end_char = c.end_char; token_count = estimate_tokens text }

-- The indices, counted anew.
pub reindex : {A : Type 0} → ℕ → List (Chunk A) → List (Chunk A)
reindex n [] = []
reindex n (c ∷ cs) = record c { index = n } ∷ reindex (suc n) cs

module _ {A : Type 0} (separator : List A) (min_chunk_size : ℕ) where
  -- The loop, with the buffer.
  pub merge : Option (Chunk A) → List (Chunk A) → List (Chunk A)
  unfolding is_small merged_into
  merge none [] = []
  merge (some buffer) [] = buffer ∷ []
  merge none (c ∷ cs) =
      let held = merge (some c) cs in
      let kept = c ∷ merge none cs in if is_small min_chunk_size c then held else kept
  merge (some buffer) (c ∷ cs) =
      let longer = merge (some (merged_into separator buffer c)) cs in
      let rest = merge none cs in
      if is_small min_chunk_size c
      then longer
      else if is_small min_chunk_size buffer
      then merged_into separator buffer c ∷ rest
      else buffer ∷ c ∷ rest

  -- `merge_small_chunks`
  pub merge_small_chunks : List (Chunk A) → List (Chunk A)
  unfolding merge reindex
  merge_small_chunks [] = []
  merge_small_chunks (c ∷ cs) = reindex 0 (merge none (c ∷ cs))
