-- ===== src/Gateway/Bucket/Quota.antt =====
-- A token bucket grants no more than it held and what it was refilled with.
use native.Mathlib.Nat.{div-add-mod', mod-lt, mul-le-mul_right}
use ai_agent_code.Common.{
  le→leb, ◌∙◌, ℕ, ◌+◌, ◌-◌, ◌*◌, ◌/◌, ◌≡◌, ◌≤◌, ◌<◌, refl, min, true, some, if◌then◌else◌, arith,
  List, [], ◌∷◌,
}
use ai_agent_code.Gateway.Bucket.{unit, TokenBucket, refill, consume, time_until_token}

-- Requests for tokens, each with its time.
abbrev pub Requests : Type 0
Requests = List (ℕ × ℕ)

abbrev pub Rising : ℕ → Requests → Type 0
Rising t [] = Unit
Rising t ((now, n) ∷ rs) = (t ≤ now) × Rising now rs

-- The time of the last request.
abbrev pub last_time : ℕ → Requests → ℕ
last_time t [] = t
last_time t ((now, n) ∷ rs) = last_time now rs

-- The bucket at the end, and the tokens granted.
pub consume_all : TokenBucket → Requests → TokenBucket × ℕ
consume_all b [] = (b, 0)
consume_all b ((now, n) ∷ rs) =
    let (b', granted) = consume b n now in
    let (b'', total) = consume_all b' rs in (b'', (if granted then n else 0) + total)

pub consume-keeps :
    (b : TokenBucket) (n now : ℕ)
    → let b' = (consume b n now).0 in
      (b'.rate ≡ b.rate)
      × (b'.capacity ≡ b.capacity)
      × (b'.last_refill ≡ now)
      × (b'.tokens ≤ b.capacity * unit)
unfolding consume
consume-keeps b n now = ground arith

pub consume-spends :
    (b : TokenBucket) (n now : ℕ)
    → let (b', granted) = consume b n now in
      (if granted then n else 0) * unit + b'.tokens ≤ b.tokens + (now - b.last_refill) * b.rate
unfolding consume
consume-spends b n now = ground arith

pub last_time-le : (t : ℕ) (rs : Requests) → Rising t rs → t ≤ last_time t rs
last_time-le t [] h = omega arith
last_time-le t ((now, n) ∷ rs) h = omega (arith, last_time-le now rs h.1)

pub split_span :
    (t now end rate : ℕ)
    → t ≤ now
    → now ≤ end
    → (end - t) * rate ≡ (now - t) * rate + (end - now) * rate
split_span t now end rate h k =
    let e : end - t ≡ (now - t) + (end - now) = omega arith in rw e (omega arith)

quota_from :
    (b : TokenBucket) (rs : Requests) (t rate : ℕ)
    → b.last_refill ≡ t
    → b.rate ≡ rate
    → Rising t rs
    → let (b', granted) = consume_all b rs in
      granted * unit + b'.tokens ≤ b.tokens + (last_time t rs - t) * rate
unfolding consume_all
quota_from b [] t rate since at h = omega arith
quota_from b ((now, n) ∷ rs) t rate since at h =
    let (b', granted) = consume b n now in
    let keeps = consume-keeps b n now in
    let rest = quota_from b' rs now rate keeps.2 (keeps.0 ∙ at) h.1 in
    let span = split_span t now (last_time now rs) rate h.0 (last_time-le now rs h.1) in
    let spends = rw (since, at) at (consume-spends b n now) in grind arith

-- Over any requests at times that do not fall, the tokens granted and those left are at most the
-- tokens at the start and those refilled in the time between.
pub consume_all-quota :
    (b : TokenBucket) (rs : Requests)
    → Rising b.last_refill rs
    → let (b', granted) = consume_all b rs in
      granted * unit + b'.tokens ≤ b.tokens + (last_time b.last_refill rs - b.last_refill) * b.rate
consume_all-quota b rs h = quota_from b rs b.last_refill b.rate refl refl h

enough : (missing rate : ℕ) → 0 < rate → missing ≤ (missing / rate + 1) * rate
enough missing rate h = omega (arith, div-add-mod' missing rate, mod-lt missing h)

one_token : (capacity : ℕ) → 1 ≤ capacity → unit ≤ capacity * unit
one_token capacity h = grind arith

-- A bucket that was refilled more than `wait` milliseconds ago can grant a token.
granted_after :
    (b : TokenBucket) (wait later : ℕ)
    → unit ≤ b.capacity * unit
    → unit ≤ b.tokens + (wait + 1) * b.rate
    → b.last_refill + wait < later
    → (consume b 1 later).1 ≡ true
unfolding consume
granted_after b wait later h k l =
    let more : (wait + 1) * b.rate ≤ (later - b.last_refill) * b.rate =
      mul-le-mul_right b.rate (omega arith) in
    rw
      (le→leb (1 * unit) (min (b.capacity * unit) (b.tokens + (later - b.last_refill) * b.rate))
        (omega arith))
      refl

wait_suffices :
    (b : TokenBucket) (now wait : ℕ)
    → (time_until_token b now).1 ≡ some wait
    → let b' = (time_until_token b now).0 in
      (unit ≤ b'.tokens + (wait + 1) * b'.rate)
      × (b'.last_refill ≡ now)
      × (b'.capacity ≡ b.capacity)
unfolding time_until_token
wait_suffices b now wait e = ground (arith, enough (unit - (refill b now).tokens) b.rate)

-- Whoever waits, after `time_until_token`, for longer than the whole milliseconds it names gets a
-- token, at any time from then on, from a bucket that can hold one and that nobody else consumes from
-- in between.
pub time_until_token-consume :
    (b : TokenBucket) (now wait later : ℕ)
    → 1 ≤ b.capacity
    → (time_until_token b now).1 ≡ some wait
    → now + wait < later
    → (consume (time_until_token b now).0 1 later).1 ≡ true
time_until_token-consume b now wait later h e l =
    let b' = (time_until_token b now).0 in
    let (tokens, since, capacity) = wait_suffices b now wait e in
    granted_after b' wait later (rw capacity (one_token b.capacity h)) tokens
      (omega (arith, since, l))
