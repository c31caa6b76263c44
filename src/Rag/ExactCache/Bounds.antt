-- ===== src/Rag/ExactCache/Bounds.antt =====
-- src/rag/caching/exact_cache.py: the size of the cache.
use ai_agent_code.Common.Dict
use ai_agent_code.Common.Dict.{Dict}
use ai_agent_code.Common.{
  same_refl, ℕ, ◌+◌, ◌≤◌, ◌<◌, ◌≡◌, ◌⊎◌, inl, inr, refl, sym, ap, ◌∙◌, Bool, true, false, not, ◌&&◌,
  ◌||◌, Option, none, some, List, [], ◌∷◌, arith, String, leb, ltb, ◌≟◌, length, Bool-cases,
  List-cases, same_refl, Option-cases, string_key, nat_key,
}
use ai_agent_code.Rag.ExactCache.{
  Entry, ExactCache, oldest, lru_key, init, evict_lru, get, set, invalidate, clear, Call, gets,
  sets, invalidates, clears, step, run,
}

-- Every access time is that of a cached entry, and the other way round, and the cache is not too large.
pub record IsBounded {A : Type 0} (size : ℕ) (c : ExactCache A) : Type 0 where
  pub capacity : c.max_size ≡ size
  pub synced : (k : String) → Dict.contains k c.access_times ≡ Dict.contains k c.cache
  pub bounded : length c.cache ≤ size

oldest-contained :
    (k : String) (t : ℕ) (d : Dict String ℕ)
    → (oldest k t d ≡ k) ⊎ (Dict.contains (oldest k t d) d ≡ true)
unfolding oldest
oldest-contained k t [] = inl refl
oldest-contained k t ((j, u) ∷ d) =
    let i = oldest-contained k t d in let i' = oldest-contained j u d in ground (arith, same_refl j)

lru_key-contained : (k : String) (d : Dict String ℕ) → lru_key d ≡ some k → Dict.contains k d ≡ true
unfolding lru_key
lru_key-contained k [] e = absurd (cc)
lru_key-contained k ((j, u) ∷ d) e = let i = oldest-contained j u d in ground (arith, same_refl j)

lru_key-none : (k : String) (d : Dict String ℕ) → lru_key d ≡ none → Dict.contains k d ≡ false
unfolding lru_key
lru_key-none k [] e = refl
lru_key-none k ((j, u) ∷ d) e = absurd (cc)

module _ {A : Type 0} where
  erased : ExactCache A → String → ExactCache A
  erased c k = record c { cache = Dict.erase k c.cache; access_times = Dict.erase k c.access_times }

  erased-synced :
      (c : ExactCache A) (k : String)
      → ((j : String) → Dict.contains j c.access_times ≡ Dict.contains j c.cache)
      → (j : String)
      → Dict.contains j (erased c k).access_times ≡ Dict.contains j (erased c k).cache
  unfolding erased
  erased-synced c k s j =
      Dict.contains-erase j k c.access_times
      ∙ ap (λ (b : Bool). not (j ≟ k) && b) (s j)
      ∙ sym (Dict.contains-erase j k c.cache)

  erased-IsBounded :
      (size : ℕ) (c : ExactCache A) (k : String) → IsBounded size c → IsBounded size (erased c k)
  erased-IsBounded size c k v = record {
    capacity = unfold erased in v.capacity;
    synced = erased-synced c k v.synced;
    bounded = unfold erased in omega (arith, v.bounded, Dict.length-erase-le k c.cache);
  }

  lru_key-some :
      (c : ExactCache A)
      → ((j : String) → Dict.contains j c.access_times ≡ Dict.contains j c.cache)
      → 0 < length c.cache
      → (k : String) × (lru_key c.access_times ≡ some k)
  lru_key-some c s h = elim (Option-cases (lru_key c.access_times)) [
    | inr f ↦ f
    | inl e ↦ elim (List-cases c.cache) [
      | inl n ↦ absurd (let z : length c.cache ≡ 0 = rw n refl in omega arith)
      | inr ((k, v), d, n) ↦ absurd (
          let hit : Dict.contains k c.cache ≡ true = rw n (ground (arith, same_refl k)) in
          let miss : Dict.contains k c.access_times ≡ false = lru_key-none k c.access_times e in
          let both = s k in cc)
    ]
  ]

  -- An eviction from a cache that is not empty makes it smaller.
  evict_lru-erased :
      (c : ExactCache A)
      → ((j : String) → Dict.contains j c.access_times ≡ Dict.contains j c.cache)
      → 0 < length c.cache
      → (k : String) × (evict_lru c ≡ erased c k) × (length (erased c k).cache + 1 ≤ length c.cache)
  unfolding evict_lru erased
  evict_lru-erased c s h =
      let (k, e) = lru_key-some c s h in
      (
        k,
        rw (evict_lru, e) refl,
        elim (Option-cases (Dict.lookup k c.cache)) [
          | inl n ↦ absurd (
              let hit = lru_key-contained k c.access_times e in
              let both = s k in let miss : Dict.contains k c.cache ≡ false = ground arith in cc)
          | inr (v, n) ↦ Dict.length-erase_hit k v c.cache n
        ],
      )

  insert-IsBounded :
      (size : ℕ) (c : ExactCache A) (k : String) (e : Entry A) (now : ℕ)
      → c.max_size ≡ size
      → ((j : String) → Dict.contains j c.access_times ≡ Dict.contains j c.cache)
      → length c.cache < size
      → IsBounded size (record c {
        cache = Dict.insert k e c.cache;
        access_times = Dict.insert k now c.access_times;
      })
  insert-IsBounded size c k e now m s h = record {
    capacity = m;
    synced = λ j.
        Dict.contains-insert j k now c.access_times
        ∙ ap (λ (b : Bool). j ≟ k || b) (s j)
        ∙ sym (Dict.contains-insert j k e c.cache);
    bounded = omega (arith, Dict.length-insert-le k e c.cache);
  }

touched :
    {A : Type 0} (c : ExactCache A) (k : String) (e : Entry A) (j : String)
    → Dict.lookup k c.cache ≡ some e
    → Dict.contains j c.access_times ≡ Dict.contains j c.cache
    → (j ≟ k || Dict.contains j c.access_times) ≡ Dict.contains j c.cache
touched c k e j n s = elim (Bool-cases (j ≟ k)) [
  | inl b ↦
      let same : j ≡ k = (string_key.same_iff j k).0 b in
      let hit : Dict.lookup j c.cache ≡ some e = rw same n in ground arith
  | inr b ↦ rw b s
]

module _ {A : Type 0} (normalize_key : String → String) where
  set-IsBounded :
      (size : ℕ) (c : ExactCache A) (query : String) (result : A) (ttl : Option ℕ) (now : ℕ)
      → 0 < size
      → IsBounded size c
      → IsBounded size (set normalize_key c query result ttl now)
  unfolding set
  set-IsBounded size c query result ttl now h v =
      elim (Bool-cases (leb c.max_size (length c.cache))) [
        | inl b ↦
            let cap = v.capacity in
            let (k, e, less) = evict_lru-erased c v.synced (ground arith) in
            let small = v.bounded in
            rw (b, e)
              (insert-IsBounded size (erased c k) (normalize_key query) _ now (unfold erased in cap)
                (erased-synced c k v.synced) (omega (arith, v.bounded, less)))
        | inr b ↦
            let cap = v.capacity in
            rw b (insert-IsBounded size c (normalize_key query) _ now cap v.synced (ground arith))
      ]

  get-IsBounded :
      (size : ℕ) (c : ExactCache A) (query : String) (now : ℕ)
      → IsBounded size c
      → IsBounded size (get normalize_key c query now).0
  unfolding get
  get-IsBounded size c query now v =
      elim (Option-cases (Dict.lookup (normalize_key query) c.cache)) [
        | inl n ↦
            rw (get, n) (record { capacity = v.capacity; synced = v.synced; bounded = v.bounded })
        | inr (e, n) ↦ elim (Bool-cases (ltb (e.timestamp + e.ttl) now)) [
          | inl b ↦
              let w = erased-IsBounded size c (normalize_key query) v in
              rw (get, n, b)
                (unfold erased in
                  record { capacity = w.capacity; synced = w.synced; bounded = w.bounded })
          | inr b ↦
              rw (get, n, b)
                (record {
                  capacity = v.capacity;
                  synced = λ j.
                      Dict.contains-insert j (normalize_key query) now c.access_times
                      ∙ touched c (normalize_key query) e j n (v.synced j);
                  bounded = v.bounded;
                })
        ]
      ]

  invalidate-IsBounded :
      (size : ℕ) (c : ExactCache A) (query : String)
      → IsBounded size c
      → IsBounded size (invalidate normalize_key c query).0
  unfolding invalidate erased
  invalidate-IsBounded size c query v =
      elim (Bool-cases (Dict.contains (normalize_key query) c.cache)) [
        | inl b ↦ rw (invalidate, b) (erased-IsBounded size c (normalize_key query) v)
        | inr b ↦ rw (invalidate, b) v
      ]

  step-IsBounded :
      (size : ℕ) (c : ExactCache A) (x : Call A)
      → 0 < size
      → IsBounded size c
      → IsBounded size (step normalize_key c x)
  unfolding step clear
  step-IsBounded size c (gets query now) h v = get-IsBounded size c query now v
  step-IsBounded size c (sets query result ttl now) h v =
      set-IsBounded size c query result ttl now h v
  step-IsBounded size c (invalidates query) h v = invalidate-IsBounded size c query v
  step-IsBounded size c clears h v = record {
    capacity = v.capacity;
    synced = λ j. refl;
    bounded = omega arith;
  }

  run_keeps :
      (size : ℕ) (c : ExactCache A) (xs : List (Call A))
      → 0 < size
      → IsBounded size c
      → IsBounded size (run normalize_key c xs)
  unfolding run
  run_keeps size c [] h v = v
  run_keeps size c (x ∷ xs) h v =
      run_keeps size (step normalize_key c x) xs h (step-IsBounded size c x h v)

  -- With a size above 0, after any calls the cache holds at most that many entries, and the access
  -- times are of the cached keys, all of them and no others.
  pub run-IsBounded :
      (size ttl : ℕ) (xs : List (Call A))
      → 0 < size
      → IsBounded size (run normalize_key (init {A = A} size ttl) xs)
  unfolding init
  run-IsBounded size ttl xs h =
      run_keeps size (init size ttl) xs h
        (record { capacity = refl; synced = λ j. refl; bounded = omega arith })
