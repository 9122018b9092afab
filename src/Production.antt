-- ===== src/Production.antt =====
-- cmd/production/handlers.go: the two handlers that the production program puts around another,
-- one that limits the rate of connections and one that counts.
pub mod Limiting
pub mod Counting
pub mod Gauge
pub mod Main
use mproxy.Prelude.{
  ℕ, ◌+◌, String, Bool, true, false, not, Option, none, some, List, [], ◌∷◌, str_eq, if◌then◌else◌,
  length,
}
use mproxy.Prelude.Int.{ℤ}
use mproxy.Errors.{Err}
use mproxy.Handler.{Bytes, Context, Handler}
use mproxy.RateLimit.{TokenBucket, Limiter, allow, limiter_allow, err_rate_limit_exceeded}

-- `instants` are the readings of the clock that the next call will see: in the global bucket, when
-- a bucket is made for a client, and in the client's bucket. `limited` has the labels of the
-- requests that were counted as limited.
pub record Limited (S : Type 0) : Type 0 where
  pub inner : S
  pub per_client : Limiter
  pub global : TokenBucket
  pub instants : ℕ × ℕ × ℕ
  pub limited : List (String × String)

unfoldable pub client_id_of : Context → String
client_id_of c = if not (str_eq c.client_id "") then c.client_id else c.remote_addr

module _ {S : Type 0} (added : ℤ → ℤ → ℤ) (h : Handler S) where
  pass_on : Limited S → Context → Limited S × Context × Option Err
  pass_on s c =
      let (inner, c', err) = h.auth_connect s.inner c in (record s { inner = inner }, c', err)

  -- The part after the client's bucket has answered.
  after_client : Limiter × Bool → Limited S → Context → Limited S × Context × Option Err
  unfolding pass_on
  after_client (l, true) s c = pass_on (record s { per_client = l }) c
  after_client (l, false) s c = (
    record s { per_client = l; limited = (c.protocol, "per_client") ∷ s.limited },
    c,
    some err_rate_limit_exceeded,
  )

  after_global : TokenBucket × Bool → Limited S → Context → Limited S × Context × Option Err
  unfolding after_client
  after_global (tb, true) s c =
      after_client (limiter_allow added s.per_client (client_id_of c) s.instants.1 s.instants.2)
        (record s { global = tb }) c
  after_global (tb, false) s c = (
    record s { global = tb; limited = (c.protocol, "global") ∷ s.limited },
    c,
    some err_rate_limit_exceeded,
  )

  -- `AuthConnect` of `RateLimitedHandler`.
  unfoldable pub limited_connect : Limited S → Context → Limited S × Context × Option Err
  unfolding after_global
  limited_connect s c = after_global (allow added s.global s.instants.0) s c

  -- `RateLimitedHandler`: the other hooks are the inner handler's.
  unfoldable pub rate_limited : Handler (Limited S)
  rate_limited = record {
    auth_connect = limited_connect;
    auth_publish = λ s c topic payload.
        let (s', c', topic', payload', err) = h.auth_publish s.inner c topic payload in
        (record s { inner = s' }, c', topic', payload', err);
    auth_subscribe = λ s c topics.
        let (s', c', topics', err) = h.auth_subscribe s.inner c topics in
        (record s { inner = s' }, c', topics', err);
    on_connect = λ s c.
        let (s', c', shared, err) = h.on_connect s.inner c in
        (record s { inner = s' }, c', shared, err);
    on_publish = λ s c topic payload.
        let (s', c', shared, err) = h.on_publish s.inner c topic payload in
        (record s { inner = s' }, c', shared, err);
    on_subscribe = λ s c topics.
        let (s', c', shared, err) = h.on_subscribe s.inner c topics in
        (record s { inner = s' }, c', shared, err);
    on_unsubscribe = λ s c topics.
        let (s', c', err) = h.on_unsubscribe s.inner c topics in (record s { inner = s' }, c', err);
    on_disconnect =
        λ s c. let (s', c', err) = h.on_disconnect s.inner c in (record s { inner = s' }, c', err);
  }

-- What is told to the collectors, without the durations.
pub data Observation : Type 0 where
  auth_attempt auth_failure : String → String → Observation
  request_size : String → ℕ → Observation
  request_total : String → String → Bool → Observation
  active_up active_down accepted : String → Observation
  mqtt_packet : String → Observation

pub record Counted (S : Type 0) : Type 0 where
  pub inner : S
  pub log : List Observation

failure_log : Option Err → String → String → List Observation → List Observation
failure_log none protocol kind log = log
failure_log (some e) protocol kind log = auth_failure protocol kind ∷ log

request_log : Option Err → String → String → List Observation → List Observation
unfolding failure_log
request_log none protocol kind log = request_total protocol kind true ∷ log
request_log (some e) protocol kind log =
    request_total protocol kind false ∷ failure_log (some e) protocol kind log

mqtt_log : Context → String → List Observation → List Observation
mqtt_log c kind log = if str_eq c.protocol "mqtt" then mqtt_packet kind ∷ log else log

-- The labels are read after the inner hook where the code reads them there.
module _ {S : Type 0} (h : Handler S) where
  -- `InstrumentedHandler`.
  unfoldable pub instrumented : Handler (Counted S)
  unfolding failure_log request_log mqtt_log
  instrumented = record {
    auth_connect = λ s c.
        let (s', c', err) = h.auth_connect s.inner c in
        (
          record {
            inner = s';
            log = failure_log err c'.protocol "connect" (auth_attempt c.protocol "connect" ∷ s.log);
          },
          c',
          err,
        );
    auth_publish = λ s c topic payload.
        let (s', c', topic', payload', err) = h.auth_publish s.inner c topic payload in
        (
          record {
            inner = s';
            log = request_log err c'.protocol "publish" (
                request_size c.protocol (length payload)
                ∷ auth_attempt c.protocol "publish"
                ∷ s.log);
          },
          c',
          topic',
          payload',
          err,
        );
    auth_subscribe = λ s c topics.
        let (s', c', topics', err) = h.auth_subscribe s.inner c topics in
        (
          record {
            inner = s';
            log =
                request_log err c'.protocol "subscribe"
                  (auth_attempt c.protocol "subscribe" ∷ s.log);
          },
          c',
          topics',
          err,
        );
    on_connect = λ s c.
        let (s', c', shared, err) = h.on_connect s.inner c in
        (
          record { inner = s'; log = accepted c.protocol ∷ active_up c.protocol ∷ s.log },
          c',
          shared,
          err,
        );
    on_publish = λ s c topic payload.
        let (s', c', shared, err) = h.on_publish s.inner c topic payload in
        (record { inner = s'; log = mqtt_log c "publish" s.log }, c', shared, err);
    on_subscribe = λ s c topics.
        let (s', c', shared, err) = h.on_subscribe s.inner c topics in
        (record { inner = s'; log = mqtt_log c "subscribe" s.log }, c', shared, err);
    on_unsubscribe = λ s c topics.
        let (s', c', err) = h.on_unsubscribe s.inner c topics in
        (record { inner = s'; log = mqtt_log c "unsubscribe" s.log }, c', err);
    on_disconnect = λ s c.
        let (s', c', err) = h.on_disconnect s.inner c in
        (record { inner = s'; log = active_down c.protocol ∷ s.log }, c', err);
  }
