-- ===== src/Rag/ExactCache.antt =====
-- src/rag/caching/exact_cache.py: `ExactCache`, query results under a key, with a lifetime.
-- The key of a query, an MD5 digest of its trimmed lower-case text, is the parameter `normalize_key`.
-- Times are whole seconds, and a result is a value of the type `A`.
mod Bounds
mod Lookup
mod Tests
use ai_agent_code.Common.Dict
use ai_agent_code.Common.Dict.{Dict}
use ai_agent_code.Common.{
  ℕ, zero, suc, ◌+◌, ◌-◌, ◌*◌, ◌≤◌, ◌<◌, min, max, ◌≡◌, ◌≢◌, ◌⊎◌, ◌↔◌, inl, inr, refl, sym, ap, ◌∙◌,
  Bool, true, false, not, ◌&&◌, ◌||◌, Option, none, some, List, [], ◌∷◌, ◌++◌, map, reverse, arith,
  String, if◌then◌else◌, leb, ltb, ◌==◌, ◌≟◌, elem, length, drop, keep, count, get_last?,
  slice_last, All, Bool-cases, Option-cases, Key, string_key, nat_key,
}

pub record Entry (A : Type 0) : Type 0 where
  pub result : A
  pub timestamp : ℕ
  pub ttl : ℕ

pub record ExactCache (A : Type 0) : Type 0 where
  pub max_size : ℕ
  pub ttl_seconds : ℕ
  pub cache : Dict String (Entry A)
  pub access_times : Dict String ℕ
  pub hits : ℕ
  pub misses : ℕ

-- `min(access_times, key=access_times.get)`: the first key with the least time.
pub oldest : String → ℕ → Dict String ℕ → String
oldest key time [] = key
oldest key time ((k, t) ∷ d) = if ltb t time then oldest k t d else oldest key time d

-- `_evict_lru` finds this key, if there is any.
pub lru_key : Dict String ℕ → Option String
unfolding oldest
lru_key [] = none
lru_key ((k, t) ∷ d) = some (oldest k t d)

module _ {A : Type 0} where
  -- `__init__`
  pub init : ℕ → ℕ → ExactCache A
  init size lifetime = record {
    max_size = size;
    ttl_seconds = lifetime;
    cache = [];
    access_times = [];
    hits = 0;
    misses = 0;
  }

  -- `_evict_lru`
  pub evict_lru : ExactCache A → ExactCache A
  unfolding lru_key
  evict_lru c = elim (lru_key c.access_times) [
    | none ↦ c
    | some k ↦ record c { cache = Dict.erase k c.cache; access_times = Dict.erase k c.access_times }
  ]

-- `ttl or self.ttl_seconds`
pub lifetime : Option ℕ → ℕ → ℕ
lifetime none default = default
lifetime (some ttl) default = if ttl == 0 then default else ttl

module _ {A : Type 0} (normalize_key : String → String) where
  -- `get`
  pub get : ExactCache A → String → ℕ → ExactCache A × Option A
  get c query now =
      let key = normalize_key query in
      elim (Dict.lookup key c.cache) [
        | none ↦ (record c { misses = c.misses + 1 }, none)
        | some e ↦
            if ltb (e.timestamp + e.ttl) now
            then (
              record c {
                cache = Dict.erase key c.cache;
                access_times = Dict.erase key c.access_times;
                misses = c.misses + 1;
              },
              none,
            )
            else (
              record c { access_times = Dict.insert key now c.access_times; hits = c.hits + 1 },
              some e.result,
            )
      ]

  -- `set`
  pub set : ExactCache A → String → A → Option ℕ → ℕ → ExactCache A
  unfolding evict_lru lifetime
  set c query result ttl now =
      let key = normalize_key query in
      let c' = if leb c.max_size (length c.cache) then evict_lru c else c in
      record c' {
        cache =
            Dict.insert key
              (record { result = result; timestamp = now; ttl = lifetime ttl c'.ttl_seconds })
              c'.cache;
        access_times = Dict.insert key now c'.access_times;
      }

  -- `invalidate`
  pub invalidate : ExactCache A → String → ExactCache A × Bool
  invalidate c query =
      let key = normalize_key query in
      if Dict.contains key c.cache
      then (
        record c { cache = Dict.erase key c.cache; access_times = Dict.erase key c.access_times },
        true,
      )
      else (c, false)

  -- `clear`
  pub clear : ExactCache A → ExactCache A
  clear c = record c { cache = []; access_times = [] }

  -- `warm_cache`
  pub warm_cache : ExactCache A → List (String × A) → ℕ → ExactCache A
  unfolding set
  warm_cache c [] now = c
  warm_cache c ((query, result) ∷ es) now = warm_cache (set c query result none now) es now

-- A call that changes the cache.
pub data Call (A : Type 0) : Type 0 where
  gets : String → ℕ → Call A
  sets : String → A → Option ℕ → ℕ → Call A
  invalidates : String → Call A
  clears : Call A

module _ {A : Type 0} (normalize_key : String → String) where
  pub step : ExactCache A → Call A → ExactCache A
  unfolding get set invalidate clear
  step c (gets query now) = (get normalize_key c query now).0
  step c (sets query result ttl now) = set normalize_key c query result ttl now
  step c (invalidates query) = (invalidate normalize_key c query).0
  step c clears = clear normalize_key c

  pub run : ExactCache A → List (Call A) → ExactCache A
  unfolding step
  run c [] = c
  run c (x ∷ xs) = run (step c x) xs
