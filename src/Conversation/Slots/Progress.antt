-- ===== src/Conversation/Slots/Progress.antt =====
-- src/domain/conversation/slot_filling.py: what is asked for next, and when a form is complete.
use ai_agent_code.Common.Dict
use ai_agent_code.Common.Dict.{Dict}
use ai_agent_code.Common.{
  ◌≡◌, ◌↔◌, inl, inr, refl, true, not, ◌&&◌, none, some, [], ◌∷◌, arith, String, if◌then◌else◌, ◌≟◌,
  keep, Bool-cases, Option-cases, string_key, nat_key,
}
use ai_agent_code.Conversation.Slots.{
  Slot, SlotFiller, accepts, fill, is_missing, complete, is_complete, missing_of, get_missing_slots,
  get_next_prompt, get_value,
}

module _ {V : Type 0} where
  complete-missing :
      (f : SlotFiller V) (d : Dict String (Slot V)) → (complete f d ≡ true) ↔ (missing_of f d ≡ [])
  unfolding complete missing_of
  complete-missing f [] = (λ _. refl, λ _. refl)
  complete-missing f ((k, s) ∷ d) = ground (arith, complete-missing f d)

  -- A form is complete exactly when there is nothing left to ask for: when `get_next_prompt` is
  -- none.
  pub is_complete-prompt : (f : SlotFiller V) → (is_complete f ≡ true) ↔ (get_next_prompt f ≡ none)
  unfolding is_complete get_next_prompt get_missing_slots
  is_complete-prompt f = ground (arith, complete-missing f f.slots)

  -- Which slots a filler keeps, and the value of each after a value was offered.
  pub fill-slots : (f : SlotFiller V) (name : String) (v : V) → (fill f name v).0.slots ≡ f.slots
  unfolding fill
  fill-slots f name v = elim (Option-cases (Dict.lookup name f.slots)) [
    | inl e ↦ rw (fill, e) refl
    | inr (s, e) ↦ elim (Bool-cases (accepts s.validator v)) [
      | inl b ↦ rw (fill, e, b) refl
      | inr b ↦ rw (fill, e, b) refl
    ]
  ]

  pub get_value-fill :
      (f : SlotFiller V) (name k : String) (v : V)
      → get_value (fill f name v).0 k
        ≡ (if (fill f name v).1 && (k ≟ name) then some v else get_value f k)
  unfolding fill get_value
  get_value-fill f name k v = elim (Option-cases (Dict.lookup name f.slots)) [
    | inl e ↦ rw (fill, e) refl
    | inr (s, e) ↦ elim (Bool-cases (accepts s.validator v)) [
      | inl b ↦ rw (fill, e, b) (Dict.lookup-insert k name v f.values)
      | inr b ↦ rw (fill, e, b) refl
    ]
  ]

  is_missing-fill :
      (f : SlotFiller V) (name : String) (v : V) (s : Slot V)
      → is_missing (fill f name v).0 s
        ≡ (is_missing f s && not ((fill f name v).1 && (s.name ≟ name)))
  unfolding is_missing get_value
  is_missing-fill f name v s = ground (arith, get_value-fill f name s.name v)

  missing_of-fill :
      (f : SlotFiller V) (name : String) (v : V) (d : Dict String (Slot V))
      → missing_of (fill f name v).0 d ≡ (
          if (fill f name v).1
          then keep (λ (s : Slot V). not (s.name ≟ name)) (missing_of f d)
          else missing_of f d)
  unfolding missing_of
  missing_of-fill f name v [] = ground arith
  missing_of-fill f name v ((k, s) ∷ d) =
      ground (arith, missing_of-fill f name v d, is_missing-fill f name v s)

  -- An offer that is accepted takes the slot of that name off the slots still to fill, and no other;
  -- an offer that is refused leaves them as they were.
  pub get_missing_slots-fill :
      (f : SlotFiller V) (name : String) (v : V)
      → get_missing_slots (fill f name v).0 ≡ (
          if (fill f name v).1
          then keep (λ (s : Slot V). not (s.name ≟ name)) (get_missing_slots f)
          else get_missing_slots f)
  unfolding get_missing_slots
  get_missing_slots-fill f name v = rw (fill-slots f name v) (missing_of-fill f name v f.slots)
