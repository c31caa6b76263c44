-- ===== src/Rag/Chunker/Splitting.antt =====
-- src/rag/chunking/fixed_size.py: without an overlap, the chunks of a text make it up again.
use ai_agent_code.Common.{
  ℕ, zero, suc, ◌+◌, ◌-◌, ◌/◌, ◌≤◌, ◌<◌, min, ◌≡◌, inl, inr, refl, sym, ap, ◌∙◌, Bool, true, false,
  List, [], ◌∷◌, ◌++◌, arith, leb, ltb, length, drop, take, Bool-cases, string_key, nat_key,
}
use mathlib.Core.List.{append-nil, append_assoc}
use ai_agent_code.Rag.Chunker.Looping.{chunk_end-le}
use ai_agent_code.Rag.Chunker.{
  whole, Chunk, FixedSizeChunker, done, slice, bound, word_end, chunk_end, chunk_of, loop,
  chunk_text,
}

module _ {A : Type 0} where
  -- The texts of some chunks, one after the other.
  pub joined : List (Chunk A) → List A
  joined [] = []
  joined (c ∷ cs) = c.text ++ joined cs

  joined-append : (xs ys : List (Chunk A)) → joined (xs ++ ys) ≡ joined xs ++ joined ys
  unfolding joined
  joined-append [] ys = refl
  joined-append (x ∷ xs) ys =
      rw (joined-append xs ys) (sym (append_assoc x.text (joined xs) (joined ys)))

  take-all : (n : ℕ) (xs : List A) → length xs ≤ n → take n xs ≡ xs
  take-all zero [] h = refl
  take-all zero (x ∷ xs) h = absurd (omega arith)
  take-all (suc n) [] h = refl
  take-all (suc n) (x ∷ xs) h = ap (λ ys. x ∷ ys) (take-all n xs (omega arith))

  take-nil : (n : ℕ) → ◌≡◌ {A = List A} (take n []) []
  take-nil zero = refl
  take-nil (suc n) = refl

  take-split : (m n : ℕ) (xs : List A) → m ≤ n → take m xs ++ take (n - m) (drop m xs) ≡ take n xs
  take-split zero n xs h = let e : n - 0 ≡ n = omega arith in rw e refl
  take-split (suc m) zero xs h = absurd (omega arith)
  take-split (suc m) (suc n) [] h = take-nil (suc n - suc m)
  take-split (suc m) (suc n) (x ∷ xs) h =
      let e : suc n - suc m ≡ n - m = omega arith in
      rw e (ap (λ ys. x ∷ ys) (take-split m n xs (omega arith)))

  -- Without an overlap a piece is what lies between its two ends.
  slice-zero :
      (text : List A) (last end : ℕ) → slice text last 0 end ≡ take (end - last) (drop last text)
  unfolding slice bound
  slice-zero text last end = let e : last - 0 ≡ last = omega arith in grind arith

module _ {A : Type 0} (is_blank : A → Bool) where
  -- The end of a chunk lies after its start.
  word_end-gt :
      (text : List A) (last end n : ℕ) → last < end → last < word_end is_blank text last 0 end n
  unfolding word_end
  word_end-gt text last end zero h = h
  word_end-gt text last end (suc i) h = ground (arith, word_end-gt text last end i h)

  chunk_end-gt :
      (c : FixedSizeChunker) (text : List A) (last : ℕ)
      → c.chunk_overlap ≡ 0
      → 0 < c.chunk_size
      → last < length text
      → last < chunk_end is_blank c text last
  unfolding chunk_end
  chunk_end-gt c text last z h lt =
      let end : ℕ = min (last + (c.chunk_size - 0)) (length text) in
      let g = word_end-gt text last end (min (c.chunk_size / 10) 100) (omega arith) in
      rw z (ground arith)

  chunk_of-text :
      (c : FixedSizeChunker) (text : List A) (last n : ℕ)
      → (chunk_of is_blank c text last n).text
        ≡ slice text last c.chunk_overlap (chunk_end is_blank c text last)
  unfolding chunk_of
  chunk_of-text c text last n = refl

  -- One more chunk after those that make up the text before it.
  joined-next :
      (c : FixedSizeChunker) (text : List A) (last : ℕ) (chunks : List (Chunk A))
      → c.chunk_overlap ≡ 0
      → last ≤ chunk_end is_blank c text last
      → joined chunks ≡ take last text
      → joined (chunks ++ chunk_of is_blank c text last (length chunks) ∷ [])
        ≡ take (chunk_end is_blank c text last) text
  unfolding joined
  joined-next c text last chunks z le j =
      let end : ℕ = chunk_end is_blank c text last in
      let p =
        chunk_of-text c text last (length chunks)
        ∙ ap (λ n. slice text last n end) z
        ∙ slice-zero text last end in
      rw
        (
          joined-append chunks (chunk_of is_blank c text last (length chunks) ∷ []),
          p,
          j,
          append-nil (take (end - last) (drop last text)),
        )
        (take-split last end text le)

  -- The loop from a position on, without an overlap and with fuel enough for the rest of the text.
  loop-joins :
      (fuel : ℕ) (c : FixedSizeChunker) (text : List A) (last : ℕ) (chunks : List (Chunk A))
      → c.chunk_overlap ≡ 0
      → 0 < c.chunk_size
      → last ≤ length text
      → length text ≤ last + fuel
      → joined chunks ≡ take last text
      → (cs : List (Chunk A)) × (loop is_blank fuel c text last chunks ≡ done cs)
        × (joined cs ≡ text)
  unfolding loop
  loop-joins zero c text last chunks z h le f j =
      (chunks, ground arith, j ∙ take-all last text (omega arith))
  loop-joins (suc fuel) c text last chunks z h le f j = elim (Bool-cases (ltb last (length text))) [
    | inr b ↦ (chunks, ground arith, j ∙ take-all last text (ground arith))
    | inl b ↦
        let end = chunk_end is_blank c text last in
        let gt = chunk_end-gt c text last z h (ground arith) in
        let i =
          loop-joins fuel c text end (chunks ++ chunk_of is_blank c text last (length chunks) ∷ [])
            z h (chunk_end-le is_blank c text last) (omega arith)
            (joined-next c text last chunks z (omega arith) j) in
        (i.0, ground (arith, i.1), i.2)
  ]

  chunk_text-loop :
      (c : FixedSizeChunker) (x : A) (xs : List A) (n : ℕ)
      → leb (suc (length xs)) c.chunk_size ≡ false
      → chunk_text is_blank n c (x ∷ xs) ≡ loop is_blank n c (x ∷ xs) c.chunk_overlap []
  unfolding chunk_text
  chunk_text-loop c x xs n b = rw b refl

  chunk_text-whole :
      (c : FixedSizeChunker) (x : A) (xs : List A) (n : ℕ)
      → leb (suc (length xs)) c.chunk_size ≡ true
      → chunk_text is_blank n c (x ∷ xs) ≡ done (whole (x ∷ xs) ∷ [])
  unfolding chunk_text
  chunk_text-whole c x xs n b = rw b refl

  -- Whenever chunks do not overlap and a chunk has a positive size, `chunk_text` returns, after at most
  -- as many rounds as the text is long, and the texts of the chunks one after the other are the text:
  -- nothing of it is lost, repeated or moved, with or without word boundaries.
  pub chunk_text-joined :
      (c : FixedSizeChunker) (text : List A)
      → c.chunk_overlap ≡ 0
      → 0 < c.chunk_size
      → (cs : List (Chunk A)) × (chunk_text is_blank (length text) c text ≡ done cs)
        × (joined cs ≡ text)
  unfolding chunk_text joined whole
  chunk_text-joined c [] z h = ([], refl, refl)
  chunk_text-joined c (x ∷ xs) z h =
      let text = x ∷ xs in
      let n = length text in
      elim (Bool-cases (leb n c.chunk_size)) [
        | inl b ↦ (whole text ∷ [], chunk_text-whole c x xs n b, append-nil text)
        | inr b ↦
            let i = loop-joins n c text 0 [] z h (omega arith) (omega arith) refl in
            (i.0, chunk_text-loop c x xs n b ∙ ap (λ k. loop is_blank n c text k []) z ∙ i.1, i.2)
      ]
