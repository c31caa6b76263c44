-- ===== src/Rag/Merging/Tests.antt =====
-- Chunks of texts of numbers merged, and the theorem at a concrete input.
use ai_agent_code.Common.{ℕ, pos, ◌≡◌, refl, List, [], ◌∷◌, map, length, string_key, nat_key}
use ai_agent_code.Rag.Chunker.{Chunk}
use ai_agent_code.Rag.Merging.{merge_small_chunks}
use ai_agent_code.Rag.Merging.Groups.{texts, IsGrouped, merge_small_chunks-IsGrouped}

abbrev chunk : List ℕ → Chunk ℕ
chunk t = record { text = t; index = 7; start_char = pos 0; end_char = length t; token_count = 0 }

abbrev chunks : List (Chunk ℕ)
chunks = chunk (1 ∷ []) ∷ chunk (2 ∷ 3 ∷ 4 ∷ []) ∷ chunk (5 ∷ 6 ∷ []) ∷ chunk (7 ∷ []) ∷ []

abbrev texts_of : List (Chunk ℕ) → List (List ℕ)
texts_of cs = map (λ (c : Chunk ℕ). c.text) cs

-- The small chunk goes into the next one, the last one is left over.
merged :
    texts_of (merge_small_chunks (0 ∷ []) 2 chunks)
    ≡ (1 ∷ 0 ∷ 2 ∷ 3 ∷ 4 ∷ []) ∷ (5 ∷ 6 ∷ []) ∷ (7 ∷ []) ∷ []
unfolding merge_small_chunks
merged = refl

merge_small_chunks-IsGrouped_example :
    IsGrouped (0 ∷ []) (texts chunks) (merge_small_chunks (0 ∷ []) 2 chunks)
merge_small_chunks-IsGrouped_example = merge_small_chunks-IsGrouped (0 ∷ []) 2 chunks
