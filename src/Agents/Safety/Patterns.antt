-- ===== src/Agents/Safety/Patterns.antt =====
-- src/agents/safety.py: lists of actions that end in a repetition, and the tests for them.
use ai_agent_code.Common.{
  length-append, slice_last-drop, length-drop, subst, ℕ, zero, suc, ◌-◌, ◌*◌, ◌≤◌, ◌<◌, ◌≡◌, ◌↔◌,
  inl, inr, refl, sym, ap, ◌∙◌, true, List, [], ◌∷◌, ◌++◌, map, arith, String, length, drop, take,
  slice_last, All, List-cases, string_key, nat_key,
}
use ai_agent_code.Agents.Safety.{one_value, same_list}

-- The last actions are one action, so many times.
pub Repeats : ℕ → List String → Type 0
Repeats n actions =
    (before : List String) × (again : List String) × (a : String) × (actions ≡ before ++ again)
    × (length again ≡ n)
    × All (λ (b : String). b ≡ a) again

-- The last actions are a block of so many, twice.
pub Alternates : ℕ → List String → Type 0
Alternates n actions =
    (before : List String) × (block : List String) × (length block ≡ n)
    × (actions ≡ before ++ (block ++ block))

one_value-All :
    (x : String) (xs : List String)
    → (one_value (x ∷ xs) ≡ true) ↔ All (λ (b : String). b ≡ x) (x ∷ xs)
unfolding one_value
one_value-All x [] = (λ _. (refl, tt), λ _. refl)
one_value-All x (y ∷ xs) =
    let i = one_value-All y xs in
    (
      λ e.
          let same : x ≡ y = (string_key.same_iff x y).0 (ground arith) in
          let rest : one_value (y ∷ xs) ≡ true = (unfold one_value in ground arith) in
          (
            refl,
            subst (λ (z : String). All (λ (b : String). b ≡ z) (y ∷ xs)) (sym same) (i.0 rest),
          ),
      λ a.
          let same : x ≡ y = sym a.1.0 in
          let rest : one_value (y ∷ xs) ≡ true =
            i.1 (subst (λ (z : String). All (λ (b : String). b ≡ z) (y ∷ xs)) same a.1) in
          rw ((string_key.same_iff x y).1 same) rest,
    )

same_list-≡ : (xs ys : List String) → (same_list xs ys ≡ true) ↔ (xs ≡ ys)
unfolding same_list
same_list-≡ [] [] = (λ _. refl, λ _. refl)
same_list-≡ [] (y ∷ ys) = (λ e. absurd (cc), λ e. absurd (cc))
same_list-≡ (x ∷ xs) [] = (λ e. absurd (cc), λ e. absurd (cc))
same_list-≡ (x ∷ xs) (y ∷ ys) = ground (arith, string_key.same_iff x y, same_list-≡ xs ys)

take-drop : {A : Type 0} (n : ℕ) (xs : List A) → take n xs ++ drop n xs ≡ xs
take-drop zero xs = refl
take-drop (suc n) [] = refl
take-drop (suc n) (x ∷ xs) = ap (λ ys. x ∷ ys) (take-drop n xs)

pub length-map : {A B : Type 0} (f : A → B) (xs : List A) → length (map f xs) ≡ length xs
length-map f [] = refl
length-map f (x ∷ xs) = ap suc (length-map f xs)

map-drop : {A B : Type 0} (f : A → B) (n : ℕ) (xs : List A) → map f (drop n xs) ≡ drop n (map f xs)
map-drop f zero xs = refl
map-drop f (suc n) [] = refl
map-drop f (suc n) (x ∷ xs) = map-drop f n xs

drop-length : {A : Type 0} (xs ys : List A) → drop (length xs) (xs ++ ys) ≡ ys
drop-length [] ys = refl
drop-length (x ∷ xs) ys = drop-length xs ys

take-length : {A : Type 0} (xs ys : List A) → take (length xs) (xs ++ ys) ≡ xs
take-length [] ys = refl
take-length (x ∷ xs) ys = ap (λ zs. x ∷ zs) (take-length xs ys)

module _ (clip : String → String) where
  pub window :
      (n : ℕ) (history : List String)
      → 0 < n
      → map clip (slice_last n history) ≡ drop (length (map clip history) - n) (map clip history)
  window n history h =
      rw (slice_last-drop n history h, length-map clip history)
        (map-drop clip (length history - n) history)

All-one_value :
    (n : ℕ) (again : List String) (a : String)
    → length again ≡ n
    → 0 < n
    → All (λ (b : String). b ≡ a) again
    → one_value again ≡ true
All-one_value n [] a l h all = absurd (omega arith)
All-one_value n (x ∷ xs) a l h all =
    (one_value-All x xs).1
      (subst (λ (z : String). All (λ (b : String). b ≡ z) (x ∷ xs)) (sym all.0) all)

pub one_value-Repeats :
    (n : ℕ) (c : List String)
    → 0 < n
    → n ≤ length c
    → (one_value (drop (length c - n) c) ≡ true) ↔ Repeats n c
unfolding Repeats
one_value-Repeats n c h le =
    let counted : length (drop (length c - n) c) ≡ n =
      omega (arith, length-drop (length c - n) c) in
    (
      λ e. elim (List-cases (drop (length c - n) c)) [
        | inl z ↦ absurd (let f : length (drop (length c - n) c) ≡ 0 = rw z refl in omega arith)
        | inr (x, xs, z) ↦ (
          take (length c - n) c,
          drop (length c - n) c,
          x,
          sym (take-drop (length c - n) c),
          counted,
          subst (λ (ys : List String). All (λ (b : String). b ≡ x) ys) (sym z)
              ((one_value-All x xs).0 (subst (λ (ys : List String). one_value ys ≡ true) z e)),
        )
      ],
      λ (before, again, a, e, l, all).
          let k : length c - n ≡ length before =
            omega (arith, ap length e, length-append before again) in
          let d : drop (length c - n) c ≡ again = rw (k, e) (drop-length before again) in
          rw d (All-one_value n again a l h all),
    )

pub same_list-Alternates :
    (n : ℕ) (c : List String)
    → n * 2 ≤ length c
    → let p = drop (length c - n * 2) c in (same_list (take n p) (drop n p) ≡ true) ↔ Alternates n c
unfolding Alternates
same_list-Alternates n c le =
    let k : ℕ = length c - n * 2 in
    let p : List String = drop (length c - n * 2) c in
    let counted : length p ≡ n * 2 = omega (arith, length-drop (length c - n * 2) c) in
    let half : length (drop n p) ≡ n = omega (arith, length-drop n p) in
    (
      λ e.
          let same : take n p ≡ drop n p = (same_list-≡ (take n p) (drop n p)).0 e in
          (
            take (length c - n * 2) c,
            drop n p,
            half,
            sym (take-drop (length c - n * 2) c)
                ∙ ap (λ (ys : List String). take (length c - n * 2) c ++ ys)
                    (sym (take-drop n p) ∙ ap (λ (ys : List String). ys ++ drop n p) same),
          ),
      λ (before, block, l, e).
          let m : length c - n * 2 ≡ length before = omega (
            arith,
            ap length e,
            length-append before (block ++ block),
            length-append block block,
          ) in
          let d : drop (length c - n * 2) c ≡ block ++ block =
            rw (m, e) (drop-length before (block ++ block)) in
          let first : take n (block ++ block) ≡ block =
            subst (λ (j : ℕ). take j (block ++ block) ≡ block) l (take-length block block) in
          let second : drop n (block ++ block) ≡ block =
            subst (λ (j : ℕ). drop j (block ++ block) ≡ block) l (drop-length block block) in
          rw (d, first, second) ((same_list-≡ block block).1 refl),
    )

pub Repeats-le : (n : ℕ) (c : List String) → Repeats n c → n ≤ length c
unfolding Repeats
Repeats-le n c (before, again, a, e, l, all) =
    omega (arith, ap length e, length-append before again)

pub Alternates-le : (n : ℕ) (c : List String) → Alternates n c → n * 2 ≤ length c
unfolding Alternates
Alternates-le n c (before, block, l, e) =
    omega (arith, ap length e, length-append before (block ++ block), length-append block block)
