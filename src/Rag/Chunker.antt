-- ===== src/Rag/Chunker.antt =====
-- src/rag/chunking/fixed_size.py: `FixedSizeChunker.chunk_text`, and the checks of its base class.
-- A text is a list of characters of any type, with a test for the blanks at which a chunk may break.
-- The loop's variable `start` is an integer: from the second round on it is the end of the last chunk
-- less the overlap. The model keeps that end, which is never negative, and so `start` is the
-- difference of two natural numbers; at first it is 0, which is `chunk_overlap` less the overlap.
-- The metadata of a chunk is passed on unread, and left out.
mod Splitting
mod Looping
mod Tests
use ai_agent_code.Common.{
  ◌/◌, ℕ, ℤ, pos, negsuc, diff, zero, suc, ◌+◌, ◌-◌, ◌*◌, ◌/◌, ◌≤◌, ◌<◌, min, max, ◌≡◌, ◌≢◌, ◌⊎◌,
  ◌↔◌, inl, inr, refl, sym, ap, ◌∙◌, Bool, true, false, not, ◌&&◌, ◌||◌, Option, none, some, List,
  [], ◌∷◌, ◌++◌, map, reverse, arith, String, if◌then◌else◌, leb, ltb, ◌==◌, ◌≟◌, elem, length,
  drop, take, keep, count, get_last?, slice_last, All, Bool-cases, Option-cases, Key, string_key,
  nat_key,
}

pub record Chunk (A : Type 0) : Type 0 where
  pub text : List A
  pub index : ℕ
  pub start_char : ℤ
  pub end_char : ℕ
  pub token_count : ℕ

pub record FixedSizeChunker : Type 0 where
  pub chunk_size : ℕ
  pub chunk_overlap : ℕ
  pub respect_word_boundaries : Bool

-- `__init__` with that of `BaseChunker`: `none` is the `ValueError`.
pub init : ℕ → ℕ → Bool → Option FixedSizeChunker
init size overlap words =
    if leb size overlap
    then none
    else some
        (record { chunk_size = size; chunk_overlap = overlap; respect_word_boundaries = words })

-- What the call comes to; the loop runs on fuel.
pub data Outcome (A : Type 0) : Type 0 where
  done : List (Chunk A) → Outcome A
  out_of_fuel : Outcome A

module _ {A : Type 0} where
  -- `estimate_tokens`
  pub estimate_tokens : List A → ℕ
  estimate_tokens text = length text / 4

  -- `text[i]` of an index in range.
  pub char_at : List A → ℕ → Option A
  char_at [] i = none
  char_at (x ∷ xs) zero = some x
  char_at (x ∷ xs) (suc i) = char_at xs i

  -- An integer `p - q` as an index of a text, counted from its end if negative: `text[p - q]`.
  index_at : List A → ℕ → ℕ → Option A
  unfolding char_at
  index_at text p q =
      if leb q p
      then char_at text (p - q)
      else if leb (q - p) (length text)
      then char_at text (length text - (q - p))
      else none

  -- An integer `p - q` as a bound of a slice.
  bound : List A → ℕ → ℕ → ℕ
  bound text p q = if leb q p then p - q else length text - (q - p)

  -- `text[p - q:end]`
  pub slice : List A → ℕ → ℕ → ℕ → List A
  unfolding bound
  slice text p q end = take (end - bound text p q) (drop (bound text p q) text)

  -- The only chunk of a text that fits.
  pub whole : List A → Chunk A
  unfolding estimate_tokens
  whole text = record {
    text = text;
    index = 0;
    start_char = pos 0;
    end_char = length text;
    token_count = estimate_tokens text;
  }

  module _ (is_blank : A → Bool) where
    -- The loop for a word boundary: with `i` from a bound down to 1, the first `end - i` after `start`
    -- at which the text has a blank; `start` is `last - overlap`.
    pub word_end : List A → ℕ → ℕ → ℕ → ℕ → ℕ
    unfolding index_at
    word_end text last overlap end zero = end
    word_end text last overlap end (suc i) =
        let rest = word_end text last overlap end i in
        let blank : Bool = elim (index_at text end (suc i)) [
          | none ↦ false
          | some c ↦ is_blank c
        ] in
        if ltb (last + suc i) (end + overlap) && blank then end - suc i else rest

    -- The end of the chunk of a round.
    pub chunk_end : FixedSizeChunker → List A → ℕ → ℕ
    unfolding word_end
    chunk_end c text last =
        let end = min (last + (c.chunk_size - c.chunk_overlap)) (length text) in
        if c.respect_word_boundaries && ltb end (length text)
        then word_end text last c.chunk_overlap end (min (c.chunk_size / 10) 100)
        else end

    -- The chunk of a round.
    pub chunk_of : FixedSizeChunker → List A → ℕ → ℕ → Chunk A
    unfolding slice chunk_end
    chunk_of c text last index =
        let end = chunk_end c text last in
        let piece = slice text last c.chunk_overlap end in
        record {
          text = piece;
          index = index;
          start_char = diff last c.chunk_overlap;
          end_char = end;
          token_count = estimate_tokens piece;
        }

    -- The `while` loop, `start` being `last - chunk_overlap`.
    pub loop : ℕ → FixedSizeChunker → List A → ℕ → List (Chunk A) → Outcome A
    unfolding chunk_of
    loop zero c text last chunks =
        if ltb last (length text + c.chunk_overlap) then out_of_fuel else done chunks
    loop (suc fuel) c text last chunks =
        let next =
          loop fuel c text (chunk_end c text last)
            (chunks ++ chunk_of c text last (length chunks) ∷ []) in
        if ltb last (length text + c.chunk_overlap) then next else done chunks

    -- `chunk_text`
    pub chunk_text : ℕ → FixedSizeChunker → List A → Outcome A
    unfolding whole loop
    chunk_text fuel c [] = done []
    chunk_text fuel c (x ∷ xs) =
        let text = x ∷ xs in
        if leb (length text) c.chunk_size
        then done (whole text ∷ [])
        else loop fuel c text c.chunk_overlap []
