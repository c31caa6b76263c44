-- ===== src/Conversation/Slots/Tests.antt =====
-- A form of two slots, and the theorems at concrete inputs.
use ai_agent_code.Common.{
  ℕ, ◌≡◌, refl, true, false, none, some, List, [], ◌∷◌, ltb, string_key, nat_key,
}
use ai_agent_code.Conversation.Slots.{Slot, SlotFiller, make_slot, init, fill, get_next_prompt}
use ai_agent_code.Conversation.Slots.Validity.{
  Call, fills, resets, run, IsFilled, AreDistinct, init-run-IsFilled,
}

abbrev slots : List (Slot ℕ)
slots =
    make_slot "count" "how many" true (some (λ n. ltb n 10)) none ""
    ∷ make_slot "size" "the size" true none (some 3) "Which size?"
    ∷ []

abbrev form : SlotFiller ℕ
form = init slots

-- Only the slot without a default is asked for, by its description.
asks : get_next_prompt form ≡ some "Please provide how many"
unfolding get_next_prompt init make_slot
asks = refl

refuses : (fill form "count" 12).1 ≡ false
unfolding fill init make_slot
refuses = refl

abbrev calls : List (Call ℕ)
calls = fills "count" 12 ∷ fills "size" 20 ∷ resets ∷ fills "count" 7 ∷ []

slots-AreDistinct : AreDistinct [] slots
unfolding AreDistinct make_slot
slots-AreDistinct = (refl, (refl, tt))

init-run-IsFilled_example : IsFilled (run form calls).slots (run form calls).values
init-run-IsFilled_example = init-run-IsFilled slots calls slots-AreDistinct
