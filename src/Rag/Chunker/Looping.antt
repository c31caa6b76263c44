-- ===== src/Rag/Chunker/Looping.antt =====
-- src/rag/chunking/fixed_size.py: with an overlap, a text longer than a chunk is split for ever.
use ai_agent_code.Common.{
  ℕ, zero, suc, ◌+◌, ◌-◌, ◌/◌, ◌≤◌, min, Bool, List, arith, length, string_key, nat_key,
}
use ai_agent_code.Rag.Chunker.{FixedSizeChunker, word_end, chunk_end}

module _ {A : Type 0} (is_blank : A → Bool) where
  word_end-le :
      (text : List A) (last overlap end n : ℕ) → word_end is_blank text last overlap end n ≤ end
  unfolding word_end
  word_end-le text last overlap end zero = omega arith
  word_end-le text last overlap end (suc i) = ground (arith, word_end-le text last overlap end i)

  pub chunk_end-le :
      (c : FixedSizeChunker) (text : List A) (last : ℕ)
      → chunk_end is_blank c text last ≤ length text
  unfolding chunk_end
  chunk_end-le c text last =
      let end = min (last + (c.chunk_size - c.chunk_overlap)) (length text) in
      ground (arith, word_end-le text last c.chunk_overlap end (min (c.chunk_size / 10) 100))
