-- ===== src/Conversation/Slots.antt =====
-- src/domain/conversation/slot_filling.py: `SlotFiller`, the slots of a form filled over many turns.
-- A value is of the type `V`. A validator is a function to a Boolean: an exception in it counts as
-- false, so a validator that raises is one that says no.
mod Progress
mod Validity
mod Tests
use Prim.Native.String.{◌++◌ as join}
use ai_agent_code.Common.Dict
use ai_agent_code.Common.Dict.{Dict}
use ai_agent_code.Common.{
  ℕ, zero, suc, ◌+◌, ◌-◌, ◌*◌, ◌≤◌, ◌<◌, min, max, ◌≡◌, ◌≢◌, ◌⊎◌, ◌↔◌, inl, inr, refl, sym, ap, ◌∙◌,
  Bool, true, false, not, ◌&&◌, ◌||◌, Option, none, some, List, [], ◌∷◌, ◌++◌, map, reverse, arith,
  String, if◌then◌else◌, leb, ltb, ◌==◌, ◌≟◌, elem, length, drop, take, keep, count, get_last?,
  slice_last, All, Bool-cases, Option-cases, Key, string_key, nat_key,
}

pub record Slot (V : Type 0) : Type 0 where
  pub name : String
  pub required : Bool
  pub validator : Option (V → Bool)
  pub default : Option V
  pub prompt : String

pub record SlotFiller (V : Type 0) : Type 0 where
  pub slots : Dict String (Slot V)
  pub values : Dict String V
  pub fill_history : List (String × V × Bool)

module _ {V : Type 0} where
  -- `Slot(...)`, with `__post_init__`: an empty prompt is made from the description.
  pub make_slot : String → String → Bool → Option (V → Bool) → Option V → String → Slot V
  make_slot name description required validator default prompt = record {
    name = name;
    required = required;
    validator = validator;
    default = default;
    prompt = (if prompt ≟ "" then join "Please provide " description else prompt);
  }

  -- The default of a slot, if it has one, as a value.
  set_default : Slot V → Dict String V → Dict String V
  set_default s values = elim s.default [ none ↦ values | some v ↦ Dict.insert s.name v values ]

  -- The loop of `__init__`.
  pub declare : SlotFiller V → List (Slot V) → SlotFiller V
  unfolding set_default
  declare f [] = f
  declare f (s ∷ ss) =
      declare (record f { slots = Dict.insert s.name s f.slots; values = set_default s f.values })
        ss

  -- `__init__`
  pub init : List (Slot V) → SlotFiller V
  unfolding declare
  init ss = declare (record { slots = []; values = []; fill_history = [] }) ss

  pub accepts : Option (V → Bool) → V → Bool
  accepts none v = true
  accepts (some validator) v = validator v

  -- `fill`
  pub fill : SlotFiller V → String → V → SlotFiller V × Bool
  unfolding accepts
  fill f slot_name value =
      let refused = record f { fill_history = f.fill_history ++ (slot_name, value, false) ∷ [] } in
      elim (Dict.lookup slot_name f.slots) [
        | none ↦ (refused, false)
        | some s ↦
            if accepts s.validator value
            then (
              record f {
                values = Dict.insert slot_name value f.values;
                fill_history = f.fill_history ++ (slot_name, value, true) ∷ [];
              },
              true,
            )
            else (refused, false)
      ]

  -- `slot.required and slot.name not in self._values`
  pub is_missing : SlotFiller V → Slot V → Bool
  is_missing f s = s.required && not (Dict.contains s.name f.values)

  -- The loop of `is_complete` over the slots.
  complete : SlotFiller V → Dict String (Slot V) → Bool
  unfolding is_missing
  complete f [] = true
  complete f ((k, s) ∷ d) = if is_missing f s then false else complete f d

  -- `is_complete`
  pub is_complete : SlotFiller V → Bool
  unfolding complete
  is_complete f = complete f f.slots

  missing_of : SlotFiller V → Dict String (Slot V) → List (Slot V)
  unfolding is_missing
  missing_of f [] = []
  missing_of f ((k, s) ∷ d) = if is_missing f s then s ∷ missing_of f d else missing_of f d

  -- `get_missing_slots`
  pub get_missing_slots : SlotFiller V → List (Slot V)
  unfolding missing_of
  get_missing_slots f = missing_of f f.slots

  -- `get_next_prompt`
  pub get_next_prompt : SlotFiller V → Option String
  unfolding get_missing_slots
  get_next_prompt f = elim (get_missing_slots f) [ [] ↦ none | s ∷ ss ↦ some s.prompt ]

  -- `get_all_prompts`
  pub get_all_prompts : SlotFiller V → List String
  unfolding get_missing_slots
  get_all_prompts f = map (λ (s : Slot V). s.prompt) (get_missing_slots f)

  -- `get_value`
  pub get_value : SlotFiller V → String → Option V
  get_value f slot_name = Dict.lookup slot_name f.values

  -- `fill_from_dict`: the filler, and the answer for each name.
  pub fill_from_dict : SlotFiller V → Dict String V → SlotFiller V × Dict String Bool
  unfolding fill
  fill_from_dict f [] = (f, [])
  fill_from_dict f ((name, value) ∷ rest) =
      let (f', ok) = fill f name value in
      let (f'', results) = fill_from_dict f' rest in (f'', (name, ok) ∷ results)

  apply_defaults : Dict String (Slot V) → Dict String V → Dict String V
  unfolding set_default
  apply_defaults [] values = values
  apply_defaults ((k, s) ∷ d) values = apply_defaults d (set_default s values)

  -- `reset`
  pub reset : SlotFiller V → SlotFiller V
  unfolding apply_defaults
  reset f = record f { values = apply_defaults f.slots []; fill_history = [] }
