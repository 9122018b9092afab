-- ===== src/Production/Limiting.antt =====
-- cmd/production/handlers.go: how many connections pass the limiting handler, and what becomes of a
-- CONNECT that does not.
use mproxy.Prelude.{
  ℕ, suc, ◌+◌, ◌*◌, ◌≤◌, false, ◌⊎◌, Option, some, List, [], ◌∷◌, ◌≡◌, arith, if◌then◌else◌, map,
  subst,
}
use mproxy.Prelude.Int.{ℤ, pos, pos_part, max_int64}
use native.Mathlib.Nat.{mul-le-mul_right}
use mproxy.Errors.{Err, wrapped}
use mproxy.Handler.{Context, Handler}
use mproxy.Parser.{upstream}
use mproxy.Parser.Mqtt.{Packet, Connect, connect, Read, packet, parse}
use mproxy.Parser.Mqtt.Forwarding.{authorise, credentials, parse-refused}
use mproxy.RateLimit.{new_token_bucket, allow, allow_n, limiter_allow, err_rate_limit_exceeded}
use mproxy.RateLimit.Bucket.{granted, granted-le, IsOrdered, last_time}
use mproxy.Production.{Limited, client_id_of, limited_connect, rate_limited}

-- A handler that also counts the calls of its `AuthConnect`.
abbrev pub tallied : {S : Type 0} → Handler S → Handler (ℕ × S)
tallied h = record {
  auth_connect = λ s c. let (s', c', err) = h.auth_connect s.1 c in ((suc s.0, s'), c', err);
  auth_publish = λ s c topic payload.
      let (s', c', topic', payload', err) = h.auth_publish s.1 c topic payload in
      ((s.0, s'), c', topic', payload', err);
  auth_subscribe = λ s c topics.
      let (s', c', topics', err) = h.auth_subscribe s.1 c topics in ((s.0, s'), c', topics', err);
  on_connect =
      λ s c. let (s', c', shared, err) = h.on_connect s.1 c in ((s.0, s'), c', shared, err);
  on_publish = λ s c topic payload.
      let (s', c', shared, err) = h.on_publish s.1 c topic payload in ((s.0, s'), c', shared, err);
  on_subscribe = λ s c topics.
      let (s', c', shared, err) = h.on_subscribe s.1 c topics in ((s.0, s'), c', shared, err);
  on_unsubscribe =
      λ s c topics. let (s', c', err) = h.on_unsubscribe s.1 c topics in ((s.0, s'), c', err);
  on_disconnect = λ s c. let (s', c', err) = h.on_disconnect s.1 c in ((s.0, s'), c', err);
}

-- The requests to the global bucket: one token each.
abbrev pub asks : List (Context × ℕ × ℕ × ℕ) → List (ℕ × ℕ)
asks = map (λ e. (e.1, 1))

module _ {S : Type 0} (added : ℤ → ℤ → ℤ) (h : Handler S) where
  -- `AuthConnect` for one connection after the other, each with its context and its instants.
  unfoldable pub connect_all : Limited (ℕ × S) → List (Context × ℕ × ℕ × ℕ) → Limited (ℕ × S)
  connect_all s [] = s
  connect_all s ((c, t0, t1, t2) ∷ es) =
      connect_all (limited_connect added (tallied h) (record s { instants = (t0, t1, t2) }) c).0 es

  connect-one :
      (s : Limited (ℕ × S)) (c : Context)
      → let s' = (limited_connect added (tallied h) s c).0 in
        let (tb, allowed) = allow_n added s.global (pos 1) s.instants.0 in
        (s'.global ≡ tb) × (s'.inner.0 ≤ (if allowed then 1 else 0) + s.inner.0)
  unfolding limited_connect allow
  connect-one s c = ground arith

  connect_all-granted :
      (s : Limited (ℕ × S)) (es : List (Context × ℕ × ℕ × ℕ))
      → (connect_all s es).inner.0 ≤ granted added s.global (asks es) + s.inner.0
  unfolding connect_all granted
  connect_all-granted s [] = omega arith
  connect_all-granted s ((c, t0, t1, t2) ∷ es) =
      let s1 = record s { instants = (t0, t1, t2) } in
      let s2 = (limited_connect added (tallied h) s1 c).0 in
      let one = connect-one s1 c in
      let rest =
        subst (λ tb. (connect_all s2 es).inner.0 ≤ granted added tb (asks es) + s2.inner.0) one.0
          (connect_all-granted s2 es) in
      omega (arith, one.1, rest)

  -- However many connections are tried, and of however many clients, the inner `AuthConnect` is
  -- called no more often than the global bucket's capacity and its rate allow in the time that has
  -- passed since the bucket was made, for any floating-point product below `num / den` tokens a
  -- nanosecond and instants that do not go back.
  pub connect_all-le :
      (rate : ℤ) (num den : ℕ) (slope : (d : ℕ) → pos_part (added (pos d) rate) * den ≤ num * d)
      (s : Limited (ℕ × S)) (es : List (Context × ℕ × ℕ × ℕ)) (c t : ℕ)
      → s.global ≡ new_token_bucket (pos c) rate t
      → c ≤ max_int64
      → IsOrdered t (asks es)
      → (connect_all s es).inner.0 * den + num * t
        ≤ s.inner.0 * den + c * den + num * last_time t (asks es)
  connect_all-le rate num den slope s es c t new h o =
      let few =
        subst (λ tb. (connect_all s es).inner.0 ≤ granted added tb (asks es) + s.inner.0) new
          (connect_all-granted s es) in
      omega (arith, mul-le-mul_right den few, granted-le added rate num den slope c t (asks es) h o)

module _ {S F R W : Type 0} (added : ℤ → ℤ → ℤ) (h : Handler S) (read : R → Read F × R)
    (write : W → Packet F → W × Option Err) where
  -- A CONNECT for which the global bucket, or the one of its client identifier, or of its address
  -- if that is empty, has no token left is not forwarded: the error is `ErrRateLimitExceeded` with
  -- the parser's text before it, and the inner handler is not called.
  pub parse-limited :
      (r r' : R) (p : Connect F) (s : Limited S) (c : Context) (w : W)
      → read r ≡ (packet (connect p), r')
      → ((allow added s.global s.instants.0).1 ≡ false)
        ⊎ ((limiter_allow added s.per_client
              (client_id_of (credentials p c))
              s.instants.1
              s.instants.2).1
            ≡ false)
      → let o = parse (rate_limited added h) read write r upstream s c w in
        (o.out ≡ w)
        × (o.state.inner ≡ s.inner)
        × (o.error ≡ some (wrapped "connection authorization failed" err_rate_limit_exceeded))
  unfolding authorise rate_limited limited_connect
  parse-limited r r' p s c w g d =
      let o =
        parse-refused (rate_limited added h) read write r r' (connect p) s c w
          (wrapped "connection authorization failed" err_rate_limit_exceeded) g
          (ground (arith, d)) in
      ground (arith, o, d)
