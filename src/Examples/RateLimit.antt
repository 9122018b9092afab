-- ===== src/Examples/RateLimit.antt =====
-- pkg/ratelimit/ratelimit.go at concrete inputs. The products are computed exactly here: whole
-- tokens for the nanoseconds that have passed.
use mproxy.Prelude.{
  ◌≡◌, refl, Bool, true, false, List, [], ◌∷◌, ◌<◌, ◌≤◌, ◌+◌, ◌*◌, ◌/◌, arith, none, some, Option,
  ℕ, length,
}
use mproxy.Prelude.Int.{ℤ, pos, negsuc, i64, ◌+ℤ◌, ◌-ℤ◌, ◌≤ℤ◌, ◌<ℤ◌, since}
use mproxy.Prelude.Maps.{lookup}
use mproxy.RateLimit.{
  TokenBucket, new_token_bucket, refill, allow_n, Limiter, cleanup, limiter_allow_n,
}
use mproxy.RateLimit.Bucket.{granted, granted-le}
use mproxy.RateLimit.Clients.{
  LimiterEvent, allows, cleans, handle_all, handle_all-cleanup, IsBounded, Excludes,
  limiter_allow_n-excluded,
}

exact : ℤ → ℤ → ℤ
exact (pos d) (pos r) = pos (d * r / 1000000000)
exact _ _ = pos 0

exact-slope : (d : ℕ) → mproxy.Prelude.Int.pos_part (exact (pos d) (pos 2)) * 1000000000 ≤ 2 * d
unfolding exact
exact-slope d = omega arith

-- Ten tokens, two a second: a burst, a second later two more, and then nothing.
abbrev requests : List (ℕ × ℕ)
requests = (5, 8) ∷ (6, 4) ∷ (1000000005, 4) ∷ (1000000006, 1) ∷ []

granted-le_example :
    granted exact (new_token_bucket (pos 10) (pos 2) 0) requests * 1000000000 + 2 * 0
    ≤ 10 * 1000000000 + 2 * 1000000006
granted-le_example =
    granted-le exact (pos 2) 2 1000000000 exact-slope 10 0 requests (omega arith) (omega arith)

requests-granted : granted exact (new_token_bucket (pos 10) (pos 2) 0) requests ≡ 12
unfolding granted allow_n refill exact since i64 ◌+ℤ◌ ◌-ℤ◌ new_token_bucket
requests-granted = refl

abbrev bucket : TokenBucket
bucket = record { capacity = pos 10; tokens = pos 3; refill_rate = pos 2; last_refill = 0 }

-- Two clients at most, both known.
abbrev full : Limiter
full = record {
  limiters = ("a", bucket) ∷ ("b", bucket) ∷ [];
  capacity = pos 10;
  refill_rate = pos 2;
  max_clients = pos 2;
  armed = true;
}

full-IsBounded : IsBounded full
unfolding ◌+ℤ◌
full-IsBounded = ground arith

abbrev events : List LimiterEvent
events = allows "a" (pos 1) 5 6 ∷ allows "c" (pos 1) 7 8 ∷ cleans ∷ allows "b" (pos 9) 9 10 ∷ []

handle_all-cleanup_example :
    (pos (length (handle_all exact full events).limiters)
      ≤ℤ (handle_all exact full events).max_clients)
    × ((cleanup (handle_all exact full events)).limiters ≡ (handle_all exact full events).limiters)
handle_all-cleanup_example = handle_all-cleanup exact full events full-IsBounded

full-Excludes : Excludes full "c"
unfolding lookup
full-Excludes = record { bounded = full-IsBounded; full = omega arith; unknown = refl }

limiter_allow_n-excluded_example :
    (limiter_allow_n exact (handle_all exact full events) "c" (pos 1) 900000000000 900000000001).1
    ≡ false
limiter_allow_n-excluded_example =
    limiter_allow_n-excluded exact full "c" events (pos 1) 900000000000 900000000001 tt
      full-Excludes
