-- ===== src/Streaming/Backpressure/Tests.antt =====
-- Turns of a producer and a consumer, and the theorem at a concrete input.
use ai_agent_code.Common.{◌≡◌, refl, true, false, List, [], ◌∷◌, string_key, nat_key}
use ai_agent_code.Streaming.Backpressure.{
  BackpressureController, init, try_produce, close, Turn, produces, tries_to_produce, consumes,
  tries_to_consume, closes, run,
}
use ai_agent_code.Streaming.Backpressure.Stream.{Carries, run-Carries}

abbrev empty : BackpressureController
empty = record {
  max_size = 2;
  queue = [];
  produced_count = 0;
  consumed_count = 0;
  dropped_count = 0;
  high_water_mark = 0;
  closed = false;
}

abbrev turns : List Turn
turns =
    consumes
    ∷ produces "a"
    ∷ produces "b"
    ∷ produces "c"
    ∷ consumes
    ∷ produces "c"
    ∷ closes
    ∷ tries_to_consume
    ∷ tries_to_produce "d"
    ∷ consumes
    ∷ consumes
    ∷ []

in_order : (run empty turns [] []).left ≡ "a" ∷ "b" ∷ "c" ∷ []
unfolding run
in_order = refl

-- On a closed stream `try_produce` says that it enqueued, and enqueues nothing.
lost : try_produce (close empty) "d" ≡ (close empty, true)
unfolding try_produce close
lost = refl

run-Carries_example : Carries 2 (run empty turns [] [])
run-Carries_example = run-Carries 2 empty turns (unfold init in refl)
