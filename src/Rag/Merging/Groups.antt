-- ===== src/Rag/Merging/Groups.antt =====
-- src/rag/chunking/base.py: merged chunks hold the texts of the chunks, all of them, in order.
use ai_agent_code.Common.{
  subst, ℕ, suc, ◌≡◌, inl, inr, refl, sym, ap, ◌∙◌, Option, none, some, List, [], ◌∷◌, ◌++◌,
  Bool-cases, string_key, nat_key,
}
use mathlib.Core.List.{append_assoc}
use ai_agent_code.Rag.Chunker.{Chunk}
use ai_agent_code.Rag.Merging.{is_small, merged_into, merge, reindex, merge_small_chunks}

module _ {A : Type 0} where
  pub texts : List (Chunk A) → List (List A)
  texts [] = []
  texts (c ∷ cs) = c.text ∷ texts cs

  pub flatten : List (List (List A)) → List (List A)
  flatten [] = []
  flatten (g ∷ gs) = g ++ flatten gs

module _ {A : Type 0} (separator : List A) where
  -- Texts with the separator between them.
  pub spaced : List (List A) → List A
  spaced [] = []
  spaced (t ∷ []) = t
  spaced (t ∷ u ∷ ts) = t ++ separator ++ spaced (u ∷ ts)

  pub all_spaced : List (List (List A)) → List (List A)
  unfolding spaced
  all_spaced [] = []
  all_spaced (g ∷ gs) = spaced g ∷ all_spaced gs

  spaced-append :
      (t u : List A) (ts : List (List A))
      → spaced (t ∷ ts ++ u ∷ []) ≡ spaced (t ∷ ts) ++ separator ++ u
  unfolding spaced
  spaced-append t u [] = refl
  spaced-append t u (v ∷ ts) =
      let x = spaced (v ∷ ts) in
      ap (λ y. t ++ separator ++ y) (spaced-append v u ts)
      ∙ sym (append_assoc (t ++ separator) (x ++ separator) u)
      ∙ ap (λ y. y ++ u) (sym (append_assoc (t ++ separator) x separator))

  -- Chunks that are groups of some texts, one group to each.
  unfoldable pub IsGrouped : List (List A) → List (Chunk A) → Type 0
  IsGrouped ts cs =
      (groups : List (List (List A))) × (flatten groups ≡ ts) × (texts cs ≡ all_spaced groups)

  nil-IsGrouped : IsGrouped [] []
  unfolding IsGrouped flatten texts all_spaced
  nil-IsGrouped = ([], refl, refl)

  -- A group more, in front.
  cons-IsGrouped :
      (c : Chunk A) (g ts : List (List A)) (cs : List (Chunk A))
      → c.text ≡ spaced g
      → IsGrouped ts cs
      → IsGrouped (g ++ ts) (c ∷ cs)
  unfolding IsGrouped flatten texts all_spaced
  cons-IsGrouped c g ts cs e (gs, p, q) = (g ∷ gs, ap (λ x. g ++ x) p, rw (e, q) refl)

  -- What the buffer holds: nothing, or the texts of a group.
  IsHeld : Option (Chunk A) → List (List A) → Type 0
  IsHeld none [] = Unit
  IsHeld none (t ∷ ts) = ⊥
  IsHeld (some b) [] = ⊥
  IsHeld (some b) (t ∷ ts) = b.text ≡ spaced (t ∷ ts)

  merged_into-text :
      (b c : Chunk A) (t : List A) (ts : List (List A))
      → b.text ≡ spaced (t ∷ ts)
      → (merged_into separator b c).text ≡ spaced (t ∷ ts ++ c.text ∷ [])
  unfolding merged_into
  merged_into-text b c t ts e =
      ap (λ x. x ++ separator ++ c.text) e ∙ sym (spaced-append t c.text ts)

  module _ (min_chunk_size : ℕ) where
    merge-IsGrouped :
        (o : Option (Chunk A)) (g : List (List A)) (cs : List (Chunk A))
        → IsHeld o g
        → IsGrouped (g ++ texts cs) (merge separator min_chunk_size o cs)
    unfolding IsHeld merge texts
    merge-IsGrouped none [] [] h = nil-IsGrouped
    merge-IsGrouped none (t ∷ ts) cs h = absurd h
    merge-IsGrouped (some b) [] cs h = absurd h
    merge-IsGrouped (some b) (t ∷ ts) [] h = cons-IsGrouped b (t ∷ ts) [] [] h nil-IsGrouped
    merge-IsGrouped none [] (c ∷ cs) h = elim (Bool-cases (is_small min_chunk_size c)) [
      | inl s ↦ rw s (merge-IsGrouped (some c) (c.text ∷ []) cs (unfold spaced in refl))
      | inr s ↦ rw s (
          cons-IsGrouped c (c.text ∷ []) (texts cs) (merge separator min_chunk_size none cs)
            (unfold spaced in refl) (merge-IsGrouped none [] cs tt))
    ]
    merge-IsGrouped (some b) (t ∷ ts) (c ∷ cs) h =
        let m = merged_into separator b c in
        let e = merged_into-text b c t ts h in
        let p : (t ∷ ts ++ c.text ∷ []) ++ texts cs ≡ (t ∷ ts) ++ c.text ∷ texts cs =
          append_assoc (t ∷ ts) (c.text ∷ []) (texts cs) in
        elim (Bool-cases (is_small min_chunk_size c)) [
          | inl s ↦ rw s (
              subst (λ x. IsGrouped x (merge separator min_chunk_size (some m) cs)) p
                (merge-IsGrouped (some m) (t ∷ ts ++ c.text ∷ []) cs e))
          | inr s ↦
              let rest = merge-IsGrouped none [] cs tt in
              elim (Bool-cases (is_small min_chunk_size b)) [
                | inl s' ↦
                    rw (s, s')
                      (subst (λ x. IsGrouped x (m ∷ merge separator min_chunk_size none cs)) p
                        (cons-IsGrouped m (t ∷ ts ++ c.text ∷ []) (texts cs)
                          (merge separator min_chunk_size none cs) e rest))
                | inr s' ↦
                    rw (s, s')
                      (cons-IsGrouped b (t ∷ ts) (c.text ∷ texts cs)
                        (c ∷ merge separator min_chunk_size none cs) h
                        (cons-IsGrouped c (c.text ∷ []) (texts cs)
                          (merge separator min_chunk_size none cs) (unfold spaced in refl) rest))
              ]
        ]

    texts-reindex : (n : ℕ) (cs : List (Chunk A)) → texts (reindex n cs) ≡ texts cs
    unfolding texts reindex
    texts-reindex n [] = refl
    texts-reindex n (c ∷ cs) = ap (λ x. c.text ∷ x) (texts-reindex (suc n) cs)

    -- The merged chunks hold the texts of the chunks, all of them and in order: the texts fall into
    -- groups one after the other, and a merged chunk holds each group, with the separator between its
    -- texts.
    pub merge_small_chunks-IsGrouped :
        (cs : List (Chunk A))
        → IsGrouped (texts cs) (merge_small_chunks separator min_chunk_size cs)
    unfolding merge_small_chunks
    merge_small_chunks-IsGrouped [] =
        unfold texts in merge-IsGrouped none [] [] (unfold IsHeld in tt)
    merge_small_chunks-IsGrouped (c ∷ cs) =
        unfold IsGrouped in
        let (gs, p, q) = merge-IsGrouped none [] (c ∷ cs) (unfold IsHeld in tt) in
        (gs, p, texts-reindex 0 (merge separator min_chunk_size none (c ∷ cs)) ∙ q)
