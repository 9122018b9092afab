-- ===== src/Breaker.antt =====
-- pkg/breaker/breaker.go: the circuit breaker. A method that changes the breaker returns the new
-- one. `now` is the reading of the clock at the method's test, `now'` the one inside `setState`.
pub mod Automaton
pub mod Calls
use mproxy.Prelude.{
  ℕ, suc, ◌*◌, String, Bool, true, false, Option, none, some, List, [], ◌∷◌, ◌==◌, if◌then◌else◌,
}
use mproxy.Prelude.Int.{ℤ, pos, ltb_ℤ, leb_ℤ, inc, since, second, default_if_zero, i64}
use mproxy.Errors.{Err, sentinel}

abbrev pub err_circuit_open : Err
err_circuit_open = sentinel "breaker" "circuit breaker is open"

-- `type State int`: the three constants, and the values that no constant names.
pub data State : Type 0 where
  state_closed state_half_open state_open : State
  state_other : ℕ → State

pub to_string : State → String
to_string state_closed = "closed"
to_string state_half_open = "half_open"
to_string state_open = "open"
to_string (state_other n) = "unknown"

abbrev pub eq_state : State → State → Bool
eq_state state_closed state_closed = true
eq_state state_half_open state_half_open = true
eq_state state_open state_open = true
eq_state (state_other m) (state_other n) = m == n
eq_state _ _ = false

pub record Config : Type 0 where
  pub max_failures : ℤ
  pub reset_timeout : ℤ
  pub success_threshold : ℤ
  pub timeout : ℤ

-- A registered callback is a number; `notified` lists the calls of callbacks that were started,
-- latest first.
pub record CircuitBreaker : Type 0 where
  pub config : Config
  pub state : State
  pub failures : ℤ
  pub successes : ℤ
  pub last_failure_time : Option ℕ
  pub last_state_change : ℕ
  pub on_state_change : Option ℕ
  pub notified : List (ℕ × State × State)

unfoldable pub with_defaults : Config → Config
unfolding default_if_zero
with_defaults c = record {
  max_failures = default_if_zero c.max_failures (pos 5);
  reset_timeout = default_if_zero c.reset_timeout (pos 60000000000);
  success_threshold = default_if_zero c.success_threshold (pos 2);
  timeout = default_if_zero c.timeout (pos 30000000000);
}

unfoldable pub new : Config → ℕ → CircuitBreaker
unfolding with_defaults
new c now = record {
  config = with_defaults c;
  state = state_closed;
  failures = pos 0;
  successes = pos 0;
  last_failure_time = none;
  last_state_change = now;
  on_state_change = none;
  notified = [];
}

-- The counters that a change to the state resets.
reset_counters : CircuitBreaker → State → CircuitBreaker
reset_counters cb state_closed = record cb { failures = pos 0; successes = pos 0 }
reset_counters cb state_half_open = record cb { successes = pos 0 }
reset_counters cb _ = cb

notify : Option ℕ → State → State → List (ℕ × State × State) → List (ℕ × State × State)
notify none from to log = log
notify (some f) from to log = (f, from, to) ∷ log

set_state : CircuitBreaker → State → ℕ → CircuitBreaker
unfolding reset_counters notify
set_state cb new_state now' =
    if eq_state cb.state new_state
    then cb
    else let moved = record cb { state = new_state; last_state_change = now' } in
      let cleared = reset_counters moved new_state in
      record cleared {
        notified = notify cleared.on_state_change cb.state new_state cleared.notified;
      }

before_dispatch : State → CircuitBreaker → ℕ → ℕ → CircuitBreaker × Option Err
unfolding set_state
before_dispatch state_open cb now now' =
    if ltb_ℤ cb.config.reset_timeout (since now cb.last_state_change)
    then (set_state cb state_half_open now', none)
    else (cb, some err_circuit_open)
before_dispatch state_half_open cb now now' = (cb, none)
before_dispatch state_closed cb now now' = (cb, none)
before_dispatch (state_other n) cb now now' = (cb, some err_circuit_open)

unfoldable pub before_call : CircuitBreaker → ℕ → ℕ → CircuitBreaker × Option Err
unfolding before_dispatch
before_call cb now now' = before_dispatch cb.state cb now now'

failure_dispatch : State → CircuitBreaker → ℕ → CircuitBreaker
unfolding set_state
failure_dispatch state_closed cb now' =
    if leb_ℤ cb.config.max_failures cb.failures then set_state cb state_open now' else cb
failure_dispatch state_half_open cb now' = set_state cb state_open now'
failure_dispatch _ cb now' = cb

on_failure : CircuitBreaker → ℕ → ℕ → CircuitBreaker
unfolding failure_dispatch
on_failure cb now now' =
    failure_dispatch cb.state
      (record cb { failures = inc cb.failures; successes = pos 0; last_failure_time = some now })
      now'

half_open_success : CircuitBreaker → ℕ → CircuitBreaker
unfolding set_state
half_open_success cb now' =
    if leb_ℤ cb.config.success_threshold cb.successes then set_state cb state_closed now' else cb

success_dispatch : State → CircuitBreaker → ℕ → CircuitBreaker
unfolding half_open_success
success_dispatch state_closed cb now' = record cb { failures = pos 0 }
success_dispatch state_half_open cb now' =
    half_open_success (record cb { successes = inc cb.successes }) now'
success_dispatch _ cb now' = cb

on_success : CircuitBreaker → ℕ → CircuitBreaker
unfolding success_dispatch
on_success cb now' = success_dispatch cb.state cb now'

unfoldable pub after_call : CircuitBreaker → Option Err → ℕ → ℕ → CircuitBreaker
unfolding on_failure on_success
after_call cb (some e) now now' = on_failure cb now now'
after_call cb none now now' = on_success cb now'

-- The four readings of the clock that one call makes.
pub record Times : Type 0 where
  pub checked : ℕ
  pub admitted : ℕ
  pub returned : ℕ
  pub recorded : ℕ

-- `fn` acts on the caller's state `S`. It is not run if the breaker refuses.
run_admitted {ℓ} :
    {S : Type ℓ}
    → CircuitBreaker × Option Err
    → (S → S × Option Err)
    → S
    → Times
    → CircuitBreaker × S × Option Err
run_admitted (cb, some e) fn s t = (cb, s, some e)
run_admitted (cb, none) fn s t =
    let (s', err) = fn s in (after_call cb err t.returned t.recorded, s', err)

pub call {ℓ} :
    {S : Type ℓ}
    → CircuitBreaker
    → (S → S × Option Err)
    → S
    → Times
    → CircuitBreaker × S × Option Err
unfolding run_admitted
call cb fn s t = run_admitted (before_call cb t.checked t.admitted) fn s t

pub register : CircuitBreaker → ℕ → CircuitBreaker
register cb f = record cb { on_state_change = some f }

pub stats : CircuitBreaker → State × ℤ × ℤ
stats cb = (cb.state, cb.failures, cb.successes)

-- What threads do to one breaker: each critical section is one event, in the order in which the
-- lock is taken. A call is a `before`, and later, among those of other threads, an `after`.
pub data Event : Type 0 where
  before : ℕ → ℕ → Event
  after : Option Err → ℕ → ℕ → Event
  registers : ℕ → Event

unfoldable pub step : CircuitBreaker → Event → CircuitBreaker
step cb (before now now') = (before_call cb now now').0
step cb (after err now now') = after_call cb err now now'
step cb (registers f) = register cb f

unfoldable pub run : CircuitBreaker → List Event → CircuitBreaker
unfolding step
run cb [] = cb
run cb (e ∷ es) = run (step cb e) es
