-- ===== src/Gateway/Latency.antt =====
-- src/ai_gateway/load_balancer.py: `LeastLatency`.
-- A candidate is its provider's name. Latencies are natural numbers of a unit in which their medians
-- are natural numbers too, and Python's `statistics.median` is the parameter `median`, on a first value
-- and the others; for no values it raises its `StatisticsError`, which is a result of its own here.
-- A `min_samples` below 0 acts as 0.
mod Least
mod Pick
mod Tests
use ai_agent_code.Common.Dict
use ai_agent_code.Common.Dict.{Dict}
use ai_agent_code.Common.{
  ℕ, ℤ, pos, negsuc, diff, zero, suc, ◌+◌, ◌-◌, ◌*◌, ◌/◌, ◌≤◌, ◌<◌, min, max, ◌≡◌, ◌≢◌, ◌⊎◌, ◌↔◌,
  inl, inr, refl, sym, ap, ◌∙◌, Bool, true, false, not, ◌&&◌, ◌||◌, Option, none, some, List, [],
  ◌∷◌, ◌++◌, map, reverse, arith, String, if◌then◌else◌, leb, ltb, ◌==◌, ◌≟◌, elem, length, drop,
  take, keep, count, get_last?, slice_last, All, Bool-cases, Option-cases, Key, string_key, nat_key,
}

pub record LeastLatency : Type 0 where
  pub window_size : ℕ
  pub min_samples : ℕ
  pub latencies : Dict String (List ℕ)

-- `__init__`
pub init : ℕ → ℕ → LeastLatency
init window_size min_samples = record {
  window_size = window_size;
  min_samples = min_samples;
  latencies = [];
}

-- `_latencies.get(name, deque())`
pub records_of : LeastLatency → String → List ℕ
records_of l name = elim (Dict.lookup name l.latencies) [ none ↦ [] | some values ↦ values ]

-- `append` on a deque of a greatest length: the oldest goes when it is full.
pub append_bounded : ℕ → List ℕ → ℕ → List ℕ
append_bounded size values v = let longer = values ++ v ∷ [] in drop (length longer - size) longer

-- `record_latency`
pub record_latency : LeastLatency → String → ℕ → LeastLatency
unfolding records_of append_bounded
record_latency l name latency = record l {
  latencies =
      Dict.insert name (append_bounded l.window_size (records_of l name) latency) l.latencies;
}

-- What the loop of `select` finds for a candidate: too few samples, a median, or the
-- `StatisticsError` of no values.
pub data P50 : Type 0 where
  untested statistics_error : P50
  tested : ℕ → P50

-- What `select` comes to: a provider, or one of the two exceptions.
pub data Selection : Type 0 where
  chosen : String → Selection
  no_candidates no_data : Selection

module _ (median : ℕ → List ℕ → ℕ) where
  -- `statistics.median(values)`
  median_of : List ℕ → P50
  median_of [] = statistics_error
  median_of (v ∷ vs) = tested (median v vs)

  -- The median of a candidate with enough samples.
  pub p50_of : LeastLatency → String → P50
  unfolding records_of median_of
  p50_of l name =
      let values = records_of l name in
      if leb l.min_samples (length values) then median_of values else untested

  -- `p50 < best_p50`; `none` is the float infinity.
  pub is_less : ℕ → Option ℕ → Bool
  is_less p50 none = true
  is_less p50 (some best) = ltb p50 best

  -- The loop of `select`: the best provider so far and its median.
  pub choose : LeastLatency → String → Option ℕ → List String → Selection
  unfolding p50_of is_less
  choose l best best_p50 [] = chosen best
  choose l best best_p50 (c ∷ cs) = elim (p50_of l c) [
    | statistics_error ↦ no_data
    | tested p50 ↦
        if is_less p50 best_p50 then choose l c (some p50) cs else choose l best best_p50 cs
    | untested ↦ elim best_p50 [
      | none ↦ choose l c none cs
      | some p50 ↦ choose l best (some p50) cs
    ]
  ]

  -- `select`: `no_candidates` is its `ValueError`, `no_data` the `StatisticsError` of the median.
  pub select : LeastLatency → List String → Selection
  unfolding choose
  select l [] = no_candidates
  select l (c ∷ []) = chosen c
  select l (c ∷ d ∷ cs) = choose l c none (c ∷ d ∷ cs)

  known_p50 : ℕ → List ℕ → Option ℕ
  known_p50 min_samples [] = none
  known_p50 min_samples (v ∷ vs) =
      if ltb (length (v ∷ vs)) min_samples then none else some (median v vs)

  -- `get_p50`
  pub get_p50 : LeastLatency → String → Option ℕ
  unfolding records_of known_p50
  get_p50 l name = known_p50 l.min_samples (records_of l name)
