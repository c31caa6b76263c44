-- ===== src/Gateway/Latency/Tests.antt =====
-- Three providers, and the theorem at a concrete input.
use ai_agent_code.Common.{
  ℕ, ◌<◌, ◌⊎◌, length, ◌≡◌, refl, true, some, List, [], ◌∷◌, String, elem, string_key, nat_key,
}
use ai_agent_code.Gateway.Latency.{
  LeastLatency, chosen, no_data, init, record_latency, select, get_p50,
}
use ai_agent_code.Gateway.Latency.Pick.{IsChosen}
use ai_agent_code.Gateway.Latency.Least.{IsMeasured, IsLacking, select-IsChosen}

-- For the tests, the first value stands for the median.
abbrev median : ℕ → List ℕ → ℕ
median v vs = v

abbrev measured : LeastLatency
measured = record_latency (record_latency (init 2 1) "a" 30) "b" 20

untested_skipped : select median measured ("a" ∷ "b" ∷ "new" ∷ []) ≡ chosen "b"
unfolding select record_latency init
untested_skipped = refl

last_untested : select median (init 2 1) ("a" ∷ "b" ∷ "new" ∷ []) ≡ chosen "new"
unfolding select init
last_untested = refl

-- When no sample is asked for, a provider without one makes the median raise.
no_sample : select median (init 2 0) ("a" ∷ "b" ∷ []) ≡ no_data
unfolding select init
no_sample = refl

window : get_p50 median (record_latency (record_latency measured "a" 40) "a" 50) "a" ≡ some 40
unfolding get_p50 record_latency init
window = refl

abbrev others : List String
others = "b" ∷ "new" ∷ []

select-IsChosen_example :
    ((r : String) × (select median measured ("a" ∷ others) ≡ chosen r)
      × (elem r ("a" ∷ others) ≡ true)
      × IsChosen median measured "a" ("a" ∷ others) r
      × ((others ≡ []) ⊎ IsMeasured median measured ("a" ∷ others)))
    ⊎ ((select median measured ("a" ∷ others) ≡ no_data)
        × (0 < length (others))
        × IsLacking median measured ("a" ∷ others))
select-IsChosen_example = select-IsChosen median measured "a" (others)
