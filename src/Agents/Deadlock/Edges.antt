-- ===== src/Agents/Deadlock/Edges.antt =====
-- src/agents/communication/deadlock.py: the edges after one is added or discarded.
use ai_agent_code.Common.Dict
use ai_agent_code.Common.Dict.{Dict}
use ai_agent_code.Common.{
  ◌≡◌, inl, inr, refl, sym, ap, ◌∙◌, true, not, ◌&&◌, ◌||◌, List, [], ◌∷◌, ◌++◌, arith, String,
  if◌then◌else◌, ◌==◌, ◌≟◌, elem, length, keep, Bool-cases, string_key, nat_key,
}
use ai_agent_code.Agents.Deadlock.Graph.{elem-append_one}
use ai_agent_code.Agents.Deadlock.{Graph, neighbors, add_edge, discard_edge}

elem-keep_other :
    (k a : String) (xs : List String)
    → elem k (keep (λ x. not (x ≟ a)) xs) ≡ (elem k xs && not (k ≟ a))
elem-keep_other k a [] = ground arith
elem-keep_other k a (x ∷ xs) = ground (
  arith,
  elem-keep_other k a xs,
  string_key.same_iff k x,
  string_key.same_iff x a,
  string_key.same_iff k a,
)

neighbors-insert :
    (g : Graph) (x a : String) (s : List String)
    → neighbors (Dict.insert x s g) a ≡ (if a ≟ x then s else neighbors g a)
unfolding neighbors
neighbors-insert g x a s = ground (arith, Dict.lookup-insert a x s g)

neighbors-erase :
    (g : Graph) (x a : String)
    → neighbors (Dict.erase x g) a ≡ (if a ≟ x then [] else neighbors g a)
unfolding neighbors
neighbors-erase g x a = ground (arith, Dict.lookup-erase a x g)

elem-add :
    (b y : String) (s : List String)
    → elem b (if elem y s then s else s ++ y ∷ []) ≡ (elem b s || (b ≟ y))
elem-add b y s = elim (Bool-cases (elem y s)) [
  | inl e ↦ elim (Bool-cases (b ≟ y)) [
    | inl q ↦
        let r : b ≡ y = ground (arith, string_key.same_iff b y) in
        let m : elem b s ≡ true = ap (λ x. elem x s) r ∙ e in ground (arith, m)
    | inr q ↦ ground arith
  ]
  | inr e ↦ ground (arith, elem-append_one b y s)
]

pub neighbors-add_edge :
    (g : Graph) (x y a b : String)
    → elem b (neighbors (add_edge g x y) a) ≡ (elem b (neighbors g a) || ((a ≟ x) && (b ≟ y)))
unfolding add_edge
neighbors-add_edge g x y a b =
    let s = neighbors g x in
    let n = neighbors-insert g x a (if elem y s then s else s ++ y ∷ []) in
    elim (Bool-cases (a ≟ x)) [
      | inl p ↦
          let q : a ≡ x = ground (arith, string_key.same_iff a x) in
          let m : elem b (neighbors g a) ≡ elem b s = ap (λ z. elem b (neighbors g z)) q in
          ap (elem b) n ∙ rw p (elem-add b y s ∙ ap (λ z. z || (b ≟ y)) (sym m))
      | inr p ↦ ap (elem b) n ∙ ground (arith, p)
    ]

empty-length : {A : Type 0} (xs : List A) → (length xs == 0) ≡ true → xs ≡ []
empty-length [] e = refl
empty-length (x ∷ xs) e = absurd (ground arith)

neighbors-discard :
    (g : Graph) (x y a : String)
    → neighbors (discard_edge g x y) a
      ≡ (if a ≟ x then keep (λ z. not (z ≟ y)) (neighbors g x) else neighbors g a)
unfolding discard_edge
neighbors-discard g x y a =
    let s = keep (λ z. not (z ≟ y)) (neighbors g x) in
    elim (Bool-cases (length s == 0)) [
      | inl e ↦
          rw (discard_edge, e)
            (neighbors-erase g x a
              ∙ ap (λ z. if a ≟ x then z else neighbors g a) (sym (empty-length s e)))
      | inr e ↦ rw (discard_edge, e) (neighbors-insert g x a s)
    ]

pub neighbors-discard_edge :
    (g : Graph) (x y a b : String)
    → elem b (neighbors (discard_edge g x y) a)
      ≡ (elem b (neighbors g a) && not ((a ≟ x) && (b ≟ y)))
neighbors-discard_edge g x y a b = elim (Bool-cases (a ≟ x)) [
  | inl p ↦
      let q : a ≡ x = ground (arith, string_key.same_iff a x) in
      let m : elem b (neighbors g a) ≡ elem b (neighbors g x) =
        ap (λ z. elem b (neighbors g z)) q in
      ap (elem b) (neighbors-discard g x y a)
      ∙ rw p (elem-keep_other b y (neighbors g x) ∙ ap (λ z. z && not (b ≟ y)) (sym m))
  | inr p ↦ ap (elem b) (neighbors-discard g x y a) ∙ ground (arith, p)
]
