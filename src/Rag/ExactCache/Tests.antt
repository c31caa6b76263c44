-- ===== src/Rag/ExactCache/Tests.antt =====
-- Runs of the cache, and the theorems at concrete inputs.
use ai_agent_code.Common.Dict
use ai_agent_code.Common.{
  ◌+◌, ◌≡◌, refl, false, none, some, List, [], ◌∷◌, arith, String, if◌then◌else◌, ltb, string_key,
  nat_key,
}
use ai_agent_code.Rag.ExactCache.{init, get, set, lifetime, warm_cache, Call, gets, sets, run}
use ai_agent_code.Rag.ExactCache.Bounds.{IsBounded, run-IsBounded}
use ai_agent_code.Rag.ExactCache.Lookup.{get-set}

abbrev normalize_key : String → String
normalize_key query = query

abbrev calls : List (Call String)
calls =
    sets "a" "one" none 1 ∷ sets "b" "two" (some 10) 2 ∷ gets "a" 3 ∷ sets "c" "three" none 4 ∷ []

-- The entry that was not read is evicted.
least_recent : Dict.contains "b" (run normalize_key (init {A = String} 2 60) calls).cache ≡ false
unfolding run init
least_recent = refl

abbrev entries : List (String × String)
entries = ("a", "one") ∷ ("b", "two") ∷ ("b", "new") ∷ []

-- A key that is set again evicts another one from a full cache.
other_lost :
    Dict.contains "a" (warm_cache normalize_key (init {A = String} 2 60) entries 1).cache ≡ false
unfolding warm_cache init
other_lost = refl

run-IsBounded_example : IsBounded 2 (run normalize_key (init {A = String} 2 60) calls)
run-IsBounded_example = run-IsBounded normalize_key 2 60 calls (omega arith)

get-set_example :
    (get normalize_key (set normalize_key (init {A = String} 2 60) "a" "one" (some 10) 1) "a" 12).1
    ≡ (if ltb (1 + lifetime (some 10) (init {A = String} 2 60).ttl_seconds) 12
        then none
        else some "one")
get-set_example = get-set normalize_key (init {A = String} 2 60) "a" "a" "one" (some 10) 1 12 refl
