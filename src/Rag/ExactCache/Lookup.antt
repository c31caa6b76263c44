-- ===== src/Rag/ExactCache/Lookup.antt =====
-- src/rag/caching/exact_cache.py: what `get` returns after `set`.
use ai_agent_code.Common.Dict
use ai_agent_code.Common.{
  ℕ, ◌+◌, ◌≡◌, inl, inr, refl, Option, none, some, String, if◌then◌else◌, leb, ltb, length,
  Bool-cases, Option-cases, string_key, nat_key,
}
use ai_agent_code.Rag.ExactCache.{Entry, ExactCache, lru_key, evict_lru, get, set, lifetime}

module _ {A : Type 0} where
  evict_lru-ttl : (c : ExactCache A) → (evict_lru c).ttl_seconds ≡ c.ttl_seconds
  unfolding evict_lru
  evict_lru-ttl c = elim (Option-cases (lru_key c.access_times)) [
    | inl e ↦ rw (evict_lru, e) refl
    | inr (k, e) ↦ rw (evict_lru, e) refl
  ]

module _ {A : Type 0} (normalize_key : String → String) where
  set-lookup :
      (c : ExactCache A) (query : String) (result : A) (ttl : Option ℕ) (now : ℕ)
      → Dict.lookup (normalize_key query) (set normalize_key c query result ttl now).cache
        ≡ some (record { result = result; timestamp = now; ttl = lifetime ttl c.ttl_seconds })
  unfolding set
  set-lookup c query result ttl now = elim (Bool-cases (leb c.max_size (length c.cache))) [
    | inl b ↦
        let same = evict_lru-ttl c in
        rw (b, same) (Dict.lookup-insert_self (normalize_key query) _ (evict_lru c).cache)
    | inr b ↦ rw b (Dict.lookup-insert_self (normalize_key query) _ c.cache)
  ]

  get-hit :
      (c : ExactCache A) (query : String) (now : ℕ) (e : Entry A)
      → Dict.lookup (normalize_key query) c.cache ≡ some e
      → (get normalize_key c query now).1
        ≡ (if ltb (e.timestamp + e.ttl) now then none else some e.result)
  unfolding get
  get-hit c query now e h = elim (Bool-cases (ltb (e.timestamp + e.ttl) now)) [
    | inl b ↦ rw (get, h, b) refl
    | inr b ↦ rw (get, h, b) refl
  ]

  -- A `get` that is the next call after a `set`, at any time and under any query of the same key,
  -- returns the result that was set, or nothing when its lifetime is over by then; whatever the cache
  -- held before, and whatever had to be evicted for the result.
  pub get-set :
      (c : ExactCache A) (query again : String) (result : A) (ttl : Option ℕ) (now later : ℕ)
      → normalize_key again ≡ normalize_key query
      → (get normalize_key (set normalize_key c query result ttl now) again later).1
        ≡ (if ltb (now + lifetime ttl c.ttl_seconds) later then none else some result)
  get-set c query again result ttl now later e =
      get-hit (set normalize_key c query result ttl now) again later _
        (rw e (set-lookup c query result ttl now))
