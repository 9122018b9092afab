-- ===== src/RateLimit/Bucket.antt =====
-- pkg/ratelimit/ratelimit.go: how much a bucket lets through.
use Prim.Native.Nat.{min}
use native.Mathlib.Nat.{mul-le-mul_right, mul-le-mul_left}
use mproxy.Prelude.{
  ℕ, suc, ◌+◌, ◌*◌, ◌-◌, ◌≤◌, ◌≡◌, refl, true, false, List, [], ◌∷◌, arith, if◌then◌else◌,
  Bool-cases, inl, inr,
}
use mproxy.Prelude.Int.{
  ℤ, pos, negsuc, ◌+ℤ◌, ◌-ℤ◌, ◌≤ℤ◌, ◌<ℤ◌, +ℤ_parts, i64, i64_id, i64-IsInt64, IsInt64, max_int64,
  pos_part, neg_part, since, ltb_ℤ, ltb_ℤ→<ℤ,
}
use mproxy.RateLimit.{TokenBucket, new_token_bucket, refill, allow_n, add_tokens}

-- The tokens are an `int64` between 0 and the capacity.
pub record IsSound (tb : TokenBucket) : Type 0 where
  pub capacity_range : IsInt64 tb.capacity
  pub low : pos 0 ≤ℤ tb.tokens
  pub high : tb.tokens ≤ℤ tb.capacity

-- Wrapping a sum never makes more of it.
pos_part-i64 : (x : ℤ) → neg_part x ≤ suc max_int64 → pos_part (i64 x) ≤ pos_part x
unfolding i64
pos_part-i64 (pos n) h = ground arith
pos_part-i64 (negsuc n) h = ground arith

-- Tokens that are there can be taken without a wrap.
take_tokens :
    (tokens capacity : ℤ) (n : ℕ)
    → IsInt64 capacity
    → tokens ≤ℤ capacity
    → pos n ≤ℤ tokens
    → (i64 (tokens -ℤ pos n) +ℤ pos n ≡ tokens)
      × (pos 0 ≤ℤ i64 (tokens -ℤ pos n))
      × (i64 (tokens -ℤ pos n) ≤ℤ capacity)
unfolding ◌-ℤ◌ ◌+ℤ◌
take_tokens (pos t) (pos c) n r h k =
    rw (i64_id (pos t -ℤ pos n) (ground arith)) (ground arith, ground arith, ground arith)
take_tokens (pos t) (negsuc c) n r h k = absurd (omega arith)
take_tokens (negsuc t) c n r h k = absurd (omega arith)

module _ (added : ℤ → ℤ → ℤ) where
  refill-IsSound :
      (tb : TokenBucket) (now : ℕ)
      → tb.tokens +ℤ added (since now tb.last_refill) tb.refill_rate ≤ℤ pos max_int64
      → IsSound tb
      → IsSound (refill added tb now)
  unfolding refill
  refill-IsSound tb now h v = ground (
    arith,
    i64_id (tb.tokens +ℤ added (since now tb.last_refill) tb.refill_rate),
    +ℤ_parts tb.tokens (added (since now tb.last_refill) tb.refill_rate),
  )

  -- `AllowN` keeps the tokens between 0 and the capacity, for a request of any size that is not
  -- negative, as long as the refill does not pass the largest `int64`; it admits the request
  -- exactly if the refilled bucket holds that many tokens, and then takes just these.
  allow_n-IsSound :
      (tb : TokenBucket) (n now : ℕ)
      → tb.tokens +ℤ added (since now tb.last_refill) tb.refill_rate ≤ℤ pos max_int64
      → IsSound tb
      → IsSound (allow_n added tb (pos n) now).0
        × ((pos n ≤ℤ (refill added tb now).tokens)
            → ((allow_n added tb (pos n) now).1 ≡ true)
              × ((allow_n added tb (pos n) now).0.tokens +ℤ pos n ≡ (refill added tb now).tokens))
        × (((refill added tb now).tokens <ℤ pos n)
            → allow_n added tb (pos n) now ≡ (refill added tb now, false))
  unfolding allow_n
  allow_n-IsSound tb n now h v =
      let w = refill-IsSound tb now h v in
      let t =
        take_tokens (refill added tb now).tokens (refill added tb now).capacity n w.capacity_range
          w.high in
      (ground (arith, w, t), λ k. ground (arith, t k), λ k. ground arith)

-- Requests, each with its instant and its size; instants do not go back before `t`.
abbrev pub IsOrdered : ℕ → List (ℕ × ℕ) → Type 0
IsOrdered t [] = Unit {0}
IsOrdered t ((now, n) ∷ rs) = (t ≤ now) × IsOrdered now rs

-- The instant of the last request.
abbrev pub last_time : ℕ → List (ℕ × ℕ) → ℕ
last_time t [] = t
last_time t ((now, n) ∷ rs) = last_time now rs

-- A bucket whose numbers are `int64` values and that was refilled by the instant `t`.
pub record IsCurrent (t : ℕ) (tb : TokenBucket) : Type 0 where
  pub capacity_range : IsInt64 tb.capacity
  pub tokens_range : IsInt64 tb.tokens
  pub by_now : tb.last_refill ≤ t

-- The tokens after an addition, whether or not it wraps or meets the capacity.
add_tokens_lem :
    (tb : TokenBucket) (a : ℤ) (now : ℕ)
    → IsInt64 tb.capacity
    → IsInt64 tb.tokens
    → pos 0 <ℤ a
    → (pos_part (add_tokens tb a now).tokens ≤ pos_part tb.tokens + pos_part a)
      × IsInt64 (add_tokens tb a now).tokens
unfolding add_tokens ◌+ℤ◌
add_tokens_lem tb (pos a) now c t h =
    ground (arith, pos_part-i64 (tb.tokens +ℤ pos a), i64-IsInt64 (tb.tokens +ℤ pos a))
add_tokens_lem tb (negsuc a) now c t h = absurd (omega arith)

scale_sum : (a b c k : ℕ) → a ≤ b + c → a * k ≤ b * k + c * k
scale_sum a b c k h = omega (arith, mul-le-mul_right k h)

scale_gap : (k d last now : ℕ) → last ≤ now → d ≤ now - last → k * d + k * last ≤ k * now
scale_gap k d last now h g = grind arith

since-pos : (now last : ℕ) → last ≤ now → (d : ℕ) × (since now last ≡ pos d) × (d ≤ now - last)
unfolding since
since-pos now last h = (min (now - last) max_int64, ground arith, omega arith)

take_gain :
    (tokens : ℤ) (n den : ℕ)
    → IsInt64 tokens
    → pos n ≤ℤ tokens
    → (n * den + pos_part (i64 (tokens -ℤ pos n)) * den ≤ pos_part tokens * den)
      × IsInt64 (i64 (tokens -ℤ pos n))
unfolding ◌-ℤ◌
take_gain (pos t) n den r h =
    let le : n ≤ t = omega arith in
    let whole : n + (t - n) ≤ t = omega arith in
    rw (i64_id (pos t -ℤ pos n) (ground arith))
      (ground (arith, mul-le-mul_right den whole), ground arith)
take_gain (negsuc t) n den r h = absurd (omega arith)

module _ (added : ℤ → ℤ → ℤ) where
  -- The sizes that `AllowN` grants in a sequence of requests to one bucket, added up.
  unfoldable pub granted : TokenBucket → List (ℕ × ℕ) → ℕ
  granted tb [] = 0
  granted tb ((now, n) ∷ rs) =
      let (tb', allowed) = allow_n added tb (pos n) now in
      (if allowed then n else 0) + granted tb' rs

  module _ (rate : ℤ) (num den : ℕ)
      (slope : (d : ℕ) → pos_part (added (pos d) rate) * den ≤ num * d) where
    worth :
        (now last : ℕ)
        → last ≤ now
        → pos_part (added (since now last) rate) * den + num * last ≤ num * now
    worth now last h =
        let (d, e, g) = since-pos now last h in
        rw e (omega (arith, slope d, scale_gap num d last now h g))

    -- One refill adds at most what the time since the last one is worth.
    refill_gain :
        (tb : TokenBucket) (now : ℕ)
        → tb.refill_rate ≡ rate
        → IsCurrent now tb
        → (pos_part (refill added tb now).tokens * den + num * tb.last_refill
            ≤ pos_part tb.tokens * den + num * (refill added tb now).last_refill)
          × IsCurrent now (refill added tb now)
          × ((refill added tb now).refill_rate ≡ rate)
    unfolding refill
    refill_gain tb now e v =
        elim (Bool-cases (ltb_ℤ (pos 0) (added (since now tb.last_refill) tb.refill_rate))) [
          | inl p ↦
              let a = added (since now tb.last_refill) tb.refill_rate in
              let (sum, range) =
                add_tokens_lem tb a now v.capacity_range v.tokens_range (ltb_ℤ→<ℤ (pos 0) a p) in
              let w = rw (← e) at (worth now tb.last_refill v.by_now) in
              rw p (
                omega (arith, w, scale_sum _ _ _ den sum),
                record {
                  capacity_range = v.capacity_range;
                  tokens_range = range;
                  by_now = omega arith;
                },
                e,
              )
          | inr q ↦ rw q (ground arith)
        ]

    allow_n_gain :
        (tb : TokenBucket) (n now : ℕ)
        → tb.refill_rate ≡ rate
        → IsCurrent now tb
        → let (tb', allowed) = allow_n added tb (pos n) now in
          ((if allowed then n else 0) * den + pos_part tb'.tokens * den + num * tb.last_refill
            ≤ pos_part tb.tokens * den + num * tb'.last_refill)
          × IsCurrent now tb'
          × (tb'.refill_rate ≡ rate)
    unfolding allow_n
    allow_n_gain tb n now e v =
        let (gain, current, same) = refill_gain tb now e v in
        ground (
          arith,
          gain,
          current,
          same,
          take_gain (refill added tb now).tokens n den current.tokens_range,
        )

    granted_gain :
        (tb : TokenBucket) (t : ℕ) (rs : List (ℕ × ℕ))
        → tb.refill_rate ≡ rate
        → IsCurrent t tb
        → IsOrdered t rs
        → granted tb rs * den + num * tb.last_refill
          ≤ pos_part tb.tokens * den + num * last_time t rs
    unfolding granted
    granted_gain tb t [] e v o = omega (arith, mul-le-mul_left num v.by_now)
    granted_gain tb t ((now, n) ∷ rs) e v o =
        let (gain, current, same) = allow_n_gain tb n now e (record {
          capacity_range = v.capacity_range;
          tokens_range = v.tokens_range;
          by_now = omega arith;
        }) in
        omega (arith, gain, granted_gain (allow_n added tb (pos n) now).0 now rs same current o.1)

    -- The rate limit, for any floating-point product below `num / den` tokens a nanosecond: from
    -- the time a bucket is made, requests in any number, of any sizes and at any instants that do
    -- not go back, are granted no more than the capacity and what that slope gives for the time
    -- that has passed. A sum that wraps around does not break it.
    pub granted-le :
        (c t : ℕ) (rs : List (ℕ × ℕ))
        → c ≤ max_int64
        → IsOrdered t rs
        → granted (new_token_bucket (pos c) rate t) rs * den + num * t
          ≤ c * den + num * last_time t rs
    unfolding new_token_bucket
    granted-le c t rs h o =
        let tb = new_token_bucket (pos c) rate t in
        granted_gain tb t rs refl
          (record { capacity_range = h; tokens_range = h; by_now = omega arith }) o
