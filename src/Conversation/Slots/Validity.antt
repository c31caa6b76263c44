-- ===== src/Conversation/Slots/Validity.antt =====
-- src/domain/conversation/slot_filling.py: a value of a slot passed the slot's validator, or is its default.
use ai_agent_code.Common.Dict
use ai_agent_code.Common.Dict.{Dict}
use ai_agent_code.Common.{
  subst, ◌≡◌, ◌⊎◌, inl, inr, refl, sym, ap, ◌∙◌, true, none, some, List, [], ◌∷◌, arith, String,
  ◌≟◌, All, Bool-cases, Option-cases, string_key, nat_key,
}
use ai_agent_code.Conversation.Slots.Progress.{fill-slots}
use ai_agent_code.Conversation.Slots.{
  Slot, SlotFiller, init, declare, set_default, apply_defaults, reset, accepts, fill,
}

-- A call of a form.
pub data Call (V : Type 0) : Type 0 where
  fills : String → V → Call V
  resets : Call V

module _ {V : Type 0} where
  pub step : SlotFiller V → Call V → SlotFiller V
  unfolding fill reset
  step f (fills name v) = (fill f name v).0
  step f resets = reset f

  pub run : SlotFiller V → List (Call V) → SlotFiller V
  unfolding step
  run f [] = f
  run f (c ∷ cs) = run (step f c) cs

  -- A value that a slot may hold.
  unfoldable pub IsAllowed : Slot V → V → Type 0
  IsAllowed s v = (accepts s.validator v ≡ true) ⊎ (s.default ≡ some v)

  -- Each value of a dict belongs to a slot that may hold it.
  unfoldable pub IsFilled : Dict String (Slot V) → Dict String V → Type 0
  IsFilled slots values =
      (name : String) (v : V)
      → Dict.lookup name values ≡ some v
      → (s : Slot V) × (Dict.lookup name slots ≡ some s) × IsAllowed s v

  -- Each slot of a part of the slots is stored under its own name.
  unfoldable pub IsNamed : Dict String (Slot V) → Dict String (Slot V) → Type 0
  IsNamed slots d = All (λ (e : String × Slot V). Dict.lookup e.1.name slots ≡ some e.1) d

  insert-IsFilled :
      (slots : Dict String (Slot V)) (values : Dict String V) (k : String) (w : V) (s : Slot V)
      → Dict.lookup k slots ≡ some s
      → IsAllowed s w
      → IsFilled slots values
      → IsFilled slots (Dict.insert k w values)
  unfolding IsFilled
  insert-IsFilled slots values k w s l a i name v e = elim (Bool-cases (name ≟ k)) [
    | inl b ↦
        let q : name ≡ k = ground (arith, string_key.same_iff name k) in
        let r : w ≡ v = ground (arith, Dict.lookup-insert name k w values) in
        (s, ap (λ x. Dict.lookup x slots) q ∙ l, subst (λ x. IsAllowed s x) r a)
    | inr b ↦ i name v (ground (arith, Dict.lookup-insert name k w values))
  ]

  set_default-IsFilled :
      (slots : Dict String (Slot V)) (values : Dict String V) (s : Slot V)
      → Dict.lookup s.name slots ≡ some s
      → IsFilled slots values
      → IsFilled slots (set_default s values)
  unfolding set_default
  set_default-IsFilled slots values s l i = elim (Option-cases s.default) [
    | inl d ↦ rw (set_default, d) i
    | inr (w, d) ↦
        rw (set_default, d)
          (insert-IsFilled slots values s.name w s l (unfold IsAllowed in inr d) i)
  ]

  apply_defaults-IsFilled :
      (slots d : Dict String (Slot V)) (values : Dict String V)
      → IsNamed slots d
      → IsFilled slots values
      → IsFilled slots (apply_defaults d values)
  unfolding apply_defaults IsNamed
  apply_defaults-IsFilled slots [] values n i = i
  apply_defaults-IsFilled slots ((k, s) ∷ d) values n i =
      apply_defaults-IsFilled slots d (set_default s values) n.1
        (set_default-IsFilled slots values s n.0 i)

  fill-IsFilled :
      (f : SlotFiller V) (name : String) (v : V)
      → IsFilled f.slots f.values
      → IsFilled f.slots (fill f name v).0.values
  unfolding fill
  fill-IsFilled f name v i = elim (Option-cases (Dict.lookup name f.slots)) [
    | inl e ↦ rw (fill, e) i
    | inr (s, e) ↦ elim (Bool-cases (accepts s.validator v)) [
      | inl b ↦
          rw (fill, e, b)
            (insert-IsFilled f.slots f.values name v s e (unfold IsAllowed in inl b) i)
      | inr b ↦ rw (fill, e, b) i
    ]
  ]

  step-slots : (f : SlotFiller V) (c : Call V) → (step f c).slots ≡ f.slots
  unfolding step reset
  step-slots f (fills name v) = fill-slots f name v
  step-slots f resets = refl

  empty-IsFilled : (slots : Dict String (Slot V)) → IsFilled slots []
  unfolding IsFilled
  empty-IsFilled slots name v e = absurd (cc)

  step-IsFilled :
      (f : SlotFiller V) (c : Call V)
      → IsNamed f.slots f.slots
      → IsFilled f.slots f.values
      → IsFilled f.slots (step f c).values
  unfolding step reset
  step-IsFilled f (fills name v) n i = fill-IsFilled f name v i
  step-IsFilled f resets n i = apply_defaults-IsFilled f.slots f.slots [] n (empty-IsFilled f.slots)

  run-IsFilled :
      (f : SlotFiller V) (cs : List (Call V))
      → IsNamed f.slots f.slots
      → IsFilled f.slots f.values
      → IsFilled (run f cs).slots (run f cs).values
  unfolding run
  run-IsFilled f [] n i = i
  run-IsFilled f (c ∷ cs) n i =
      let p = sym (step-slots f c) in
      run-IsFilled (step f c) cs (subst (λ d. IsNamed d d) p n)
        (subst (λ d. IsFilled d (step f c).values) p (step-IsFilled f c n i))

  -- No slot of a list is declared twice, or is in the slots already.
  unfoldable pub AreDistinct : Dict String (Slot V) → List (Slot V) → Type 0
  AreDistinct slots [] = Unit
  AreDistinct slots (s ∷ ss) =
      (Dict.lookup s.name slots ≡ none) × AreDistinct (Dict.insert s.name s slots) ss

  lookup-fresh :
      (slots : Dict String (Slot V)) (s t : Slot V) (name : String)
      → Dict.lookup s.name slots ≡ none
      → Dict.lookup name slots ≡ some t
      → Dict.lookup name (Dict.insert s.name s slots) ≡ some t
  lookup-fresh slots s t name f e =
      ground (arith, Dict.lookup-insert name s.name s slots, string_key.same_iff name s.name)

  fresh-IsFilled :
      (slots : Dict String (Slot V)) (s : Slot V) (values : Dict String V)
      → Dict.lookup s.name slots ≡ none
      → IsFilled slots values
      → IsFilled (Dict.insert s.name s slots) values
  unfolding IsFilled
  fresh-IsFilled slots s values f i name v e =
      let (t, l, a) = i name v e in (t, lookup-fresh slots s t name f l, a)

  fresh-IsNamed :
      (slots d : Dict String (Slot V)) (s : Slot V)
      → Dict.lookup s.name slots ≡ none
      → IsNamed slots d
      → IsNamed (Dict.insert s.name s slots) d
  unfolding IsNamed
  fresh-IsNamed slots [] s f n = tt
  fresh-IsNamed slots ((k, t) ∷ d) s f n =
      (lookup-fresh slots s t t.name f n.0, fresh-IsNamed slots d s f n.1)

  insert-IsNamed :
      (slots d : Dict String (Slot V)) (s : Slot V)
      → Dict.lookup s.name slots ≡ some s
      → IsNamed slots d
      → IsNamed slots (Dict.insert s.name s d)
  unfolding IsNamed
  insert-IsNamed slots [] s f n = (f, tt)
  insert-IsNamed slots ((k, t) ∷ d) s f n = elim (Bool-cases (s.name ≟ k)) [
    | inl b ↦ rw b (f, n.1)
    | inr b ↦ rw b (n.0, insert-IsNamed slots d s f n.1)
  ]

  declare-IsValid :
      (f : SlotFiller V) (ss : List (Slot V))
      → AreDistinct f.slots ss
      → IsNamed f.slots f.slots
      → IsFilled f.slots f.values
      → IsNamed (declare f ss).slots (declare f ss).slots
        × IsFilled (declare f ss).slots (declare f ss).values
  unfolding declare AreDistinct
  declare-IsValid f [] a n i = (n, i)
  declare-IsValid f (s ∷ ss) a n i =
      let l = Dict.lookup-insert_self s.name s f.slots in
      declare-IsValid
        (record f { slots = Dict.insert s.name s f.slots; values = set_default s f.values }) ss a.1
        (insert-IsNamed (Dict.insert s.name s f.slots) f.slots s l
          (fresh-IsNamed f.slots f.slots s a.0 n))
        (set_default-IsFilled (Dict.insert s.name s f.slots) f.values s l
          (fresh-IsFilled f.slots s f.values a.0 i))

  -- Whenever the slots have distinct names, after any calls of `fill` and `reset` each value of the
  -- form belongs to a declared slot whose validator accepts it or whose default it is.
  pub init-run-IsFilled :
      (ss : List (Slot V)) (cs : List (Call V))
      → AreDistinct [] ss
      → IsFilled (run (init ss) cs).slots (run (init ss) cs).values
  unfolding init
  init-run-IsFilled ss cs a =
      let f : SlotFiller V = record { slots = []; values = []; fill_history = [] } in
      let v = declare-IsValid f ss a (unfold IsNamed in tt) (empty-IsFilled []) in
      run-IsFilled (declare f ss) cs v.0 v.1
