-- ===== src/RateLimit.antt =====
-- pkg/ratelimit/ratelimit.go: the token bucket and the limiter that keeps one for each client.
-- A method returns the new state and its result; `now` is the reading of the clock in `refill`.
pub mod Bucket
pub mod Clients
use mproxy.Prelude.{
  ℕ, zero, suc, ◌+◌, ◌*◌, String, Bool, true, false, Option, none, some, List, [], ◌∷◌,
  if◌then◌else◌, length,
}
use mproxy.Prelude.Int.{ℤ, pos, ◌+ℤ◌, ◌-ℤ◌, ltb_ℤ, leb_ℤ, is_zero, i64, since, default_if_zero}
use mproxy.Prelude.Maps.{Dict, lookup, insert, delete}
use mproxy.Errors.{Err, sentinel}

abbrev pub err_rate_limit_exceeded : Err
err_rate_limit_exceeded = sentinel "ratelimit" "rate limit exceeded"

pub record TokenBucket : Type 0 where
  pub capacity : ℤ
  pub tokens : ℤ
  pub refill_rate : ℤ
  pub last_refill : ℕ

unfoldable pub new_token_bucket : ℤ → ℤ → ℕ → TokenBucket
new_token_bucket capacity refill_rate now = record {
  capacity = capacity;
  tokens = capacity;
  refill_rate = refill_rate;
  last_refill = now;
}

-- The limiters of the clients by client, and whether the cleanup timer is armed.
pub record Limiter : Type 0 where
  pub limiters : Dict TokenBucket
  pub capacity : ℤ
  pub refill_rate : ℤ
  pub max_clients : ℤ
  pub armed : Bool

unfoldable pub new_limiter : ℤ → ℤ → ℤ → Limiter
unfolding default_if_zero
new_limiter capacity refill_rate max_clients = record {
  limiters = [];
  capacity = capacity;
  refill_rate = refill_rate;
  max_clients = default_if_zero max_clients (pos 10000);
  armed = true;
}

unfoldable pub remove : Limiter → String → Limiter
remove l client_id = record l { limiters = delete client_id l.limiters }

-- The loop of `cleanup`: `count` entries are kept already.
unfoldable pub keep_first : ℤ → ℤ → Dict TokenBucket → Dict TokenBucket
keep_first target count [] = []
keep_first target count ((k, v) ∷ rest) = elim (ltb_ℤ count target) [
  | true ↦ (k, v) ∷ keep_first target (i64 (count +ℤ pos 1)) rest
  | false ↦ keep_first target count rest
]

unfoldable pub cleanup : Limiter → Limiter
cleanup l =
    let trimmed =
      if ltb_ℤ (i64 (l.max_clients +ℤ l.max_clients)) (pos (length l.limiters))
      then record l { limiters = keep_first l.max_clients (pos 0) l.limiters }
      else l in
    record trimmed { armed = true }

pub stats : Limiter → ℕ
stats l = length l.limiters

pub close : Limiter → Limiter
close l = record l { armed = false }

-- The write-locked section of `AllowN`: none if there are too many clients. Another thread may
-- have added the client since the read-locked look-up, so it looks again.
unfoldable pub find_or_add : Limiter → String → ℕ → Option (Limiter × TokenBucket)
find_or_add l client_id now = elim (lookup client_id l.limiters) [
  | some tb ↦ some (l, tb)
  | none ↦
      if leb_ℤ l.max_clients (pos (length l.limiters))
      then none
      else let tb = new_token_bucket l.capacity l.refill_rate now in
        some (record l { limiters = insert client_id tb l.limiters }, tb)
]

-- The branch of `refill` that has tokens to add: they are added, and cut off at the capacity.
add_tokens : TokenBucket → ℤ → ℕ → TokenBucket
add_tokens tb tokens_to_add now =
    let sum = i64 (tb.tokens +ℤ tokens_to_add) in
    record tb { tokens = if ltb_ℤ tb.capacity sum then tb.capacity else sum; last_refill = now }

-- `added d rate` is `int64(d.Seconds() * float64(rate))`, the one place with floating point.
module _ (added : ℤ → ℤ → ℤ) where
  unfoldable pub refill : TokenBucket → ℕ → TokenBucket
  unfolding add_tokens
  refill tb now =
      let tokens_to_add = added (since now tb.last_refill) tb.refill_rate in
      if ltb_ℤ (pos 0) tokens_to_add then add_tokens tb tokens_to_add now else tb

  unfoldable pub allow_n : TokenBucket → ℤ → ℕ → TokenBucket × Bool
  allow_n tb n now =
      let full = refill tb now in
      if leb_ℤ n full.tokens
      then (record full { tokens = i64 (full.tokens -ℤ n) }, true)
      else (full, false)

  unfoldable pub allow : TokenBucket → ℕ → TokenBucket × Bool
  allow tb now = allow_n tb (pos 1) now

  pub available : TokenBucket → ℕ → TokenBucket × ℤ
  available tb now = let full = refill tb now in (full, full.tokens)

  -- The bucket is shared with the map by its pointer, so its new state is seen there.
  unfoldable pub spend : Limiter → String → TokenBucket → ℤ → ℕ → Limiter × Bool
  spend l client_id tb n now =
      let (tb', allowed) = allow_n tb n now in
      (record l { limiters = insert client_id tb' l.limiters }, allowed)

  unfoldable pub add_and_spend :
      Option (Limiter × TokenBucket) → Limiter → String → ℤ → ℕ → Limiter × Bool
  add_and_spend none l client_id n now = (l, false)
  add_and_spend (some (l', tb)) l client_id n now = spend l' client_id tb n now

  -- `AllowN` of the limiter. Its look-up, the making of a bucket and the bucket's `AllowN` are locked
  -- one by one in the code, and are one step here: calls that overlap are taken in some order of whole
  -- calls. `now` is read when a bucket is made, `now'` when it is refilled.
  unfoldable pub limiter_allow_n : Limiter → String → ℤ → ℕ → ℕ → Limiter × Bool
  limiter_allow_n l client_id n now now' = elim (lookup client_id l.limiters) [
    | some tb ↦ spend l client_id tb n now'
    | none ↦ add_and_spend (find_or_add l client_id now) l client_id n now'
  ]

  unfoldable pub limiter_allow : Limiter → String → ℕ → ℕ → Limiter × Bool
  limiter_allow l client_id now now' = limiter_allow_n l client_id (pos 1) now now'
