-- ===== src/Gateway/Limiter/Isolation.antt =====
-- The buckets of the limiter as a table, and that tenants do not share their limits.
use text.Mathlib.TextLemmas.{append_cancel_left}
use ai_agent_code.Common.Dict
use ai_agent_code.Common.{
  ◌∙◌, ℕ, ◌≡◌, ◌≢◌, false, none, some, if◌then◌else◌, String, string_key, ◌≟◌, arith, Option-cases,
  inl, inr, Bool-cases, refl,
}
use ai_agent_code.Gateway.Bucket.{TokenBucket, make_bucket}
use ai_agent_code.Gateway.Limiter.{
  RateLimiter, get_tier_config, find_bucket, store_bucket, get_or_create_bucket, rps_key,
  tokens_key, check,
}

pub find-store :
    (l : RateLimiter) (tenant key : String) (b : TokenBucket) (t k : String)
    → find_bucket (store_bucket l tenant key b) t k
      ≡ (if t ≟ tenant then (if k ≟ key then some b else find_bucket l t k) else find_bucket l t k)
unfolding find_bucket store_bucket
find-store l tenant key b t k = elim (Option-cases (Dict.lookup tenant l.buckets)) [
  | inl e ↦ grind (arith, Dict.lookup-insert, string_key.same_iff t tenant)
  | inr (d, e) ↦ grind (arith, Dict.lookup-insert, string_key.same_iff t tenant)
]

pub keys_differ : (endpoint : String) → (rps_key endpoint ≟ tokens_key endpoint) ≡ false
keys_differ endpoint = elim (Bool-cases (rps_key endpoint ≟ tokens_key endpoint)) [
  | inl e ↦
      let same = append_cancel_left endpoint ":rps" ":tokens" ((string_key.same_iff _ _).0 e) in
      ground (arith, string_key.same_iff ":rps" ":tokens")
  | inr e ↦ e
]

module _ (tenant other : String) (ne : other ≢ tenant) where
  store-other :
      (l : RateLimiter) (key : String) (b : TokenBucket) (k : String)
      → find_bucket (store_bucket l tenant key b) other k ≡ find_bucket l other k
  store-other l key b k =
      ground (arith, find-store l tenant key b other k, string_key.same_iff other tenant)

  get_or_create-other :
      (l : RateLimiter) (key : String) (rate capacity now : ℕ) (k : String)
      → find_bucket (get_or_create_bucket l tenant key rate capacity now).0 other k
        ≡ find_bucket l other k
  unfolding get_or_create_bucket
  get_or_create-other l key rate capacity now k = elim (Option-cases (find_bucket l tenant key)) [
    | inl e ↦
        rw (e, get_or_create_bucket) (store-other l key (make_bucket rate capacity none now) k)
    | inr (b, e) ↦ rw (e, get_or_create_bucket) refl
  ]

-- A request of one tenant changes no bucket of another tenant.
pub check-isolates :
    (l : RateLimiter) (tenant endpoint : String) (tokens now wall : ℕ) (other key : String)
    → other ≢ tenant
    → find_bucket (check l tenant endpoint tokens now wall).0 other key ≡ find_bucket l other key
unfolding check
check-isolates l tenant endpoint tokens now wall other key ne =
    elim (Option-cases (get_tier_config l tenant)) [
      | inl e ↦ rw (e, check) refl
      | inr (c, e) ↦
          rw (e, check)
            (store-other tenant other ne _ (tokens_key endpoint) _ key
              ∙ store-other tenant other ne _ (rps_key endpoint) _ key
              ∙ get_or_create-other tenant other ne _ (tokens_key endpoint) _ _ now key
              ∙ get_or_create-other tenant other ne l (rps_key endpoint) _ _ now key)
    ]
