-- ===== src/Rag/Chunker/Tests.antt =====
-- Texts split into chunks, and the theorems at concrete inputs.
use ai_agent_code.Common.{
  ℕ, ◌≡◌, refl, Bool, true, none, List, [], ◌∷◌, map, arith, ◌==◌, length, string_key, nat_key,
}
use ai_agent_code.Rag.Chunker.{
  Chunk, FixedSizeChunker, init, Outcome, done, out_of_fuel, chunk_text,
}
use ai_agent_code.Rag.Chunker.Splitting.{joined, chunk_text-joined}

-- Characters are numbers, and 0 is a blank.
abbrev is_blank : ℕ → Bool
is_blank c = c == 0

abbrev chunker : ℕ → ℕ → FixedSizeChunker
chunker size overlap = record {
  chunk_size = size;
  chunk_overlap = overlap;
  respect_word_boundaries = true;
}

abbrev text : List ℕ
text = 1 ∷ 2 ∷ 0 ∷ 3 ∷ 4 ∷ []

abbrev texts : Outcome ℕ → List (List ℕ)
texts out_of_fuel = []
texts (done cs) = map (λ (c : Chunk ℕ). c.text) cs

-- An overlap as long as a chunk is refused.
overlap_refused : init 5 5 true ≡ none
unfolding init
overlap_refused = refl

split_run :
    texts (chunk_text is_blank 5 (chunker 2 0) text) ≡ (1 ∷ 2 ∷ []) ∷ (0 ∷ 3 ∷ []) ∷ (4 ∷ []) ∷ []
unfolding chunk_text
split_run = refl

chunk_text-joined_example :
    (cs : List (Chunk ℕ)) × (chunk_text is_blank (length text) (chunker 2 0) text ≡ done cs)
    × (joined cs ≡ text)
chunk_text-joined_example = chunk_text-joined is_blank (chunker 2 0) text refl (omega arith)
