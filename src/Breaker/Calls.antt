-- ===== src/Breaker/Calls.antt =====
-- pkg/breaker/breaker.go: what a caller sees of the breaker.
use mproxy.Prelude.{
  ℕ, suc, ◌+◌, ◌≤◌, ◌<◌, ◌≡◌, refl, List, [], ◌∷◌, arith, none, some, Option, leb, if◌then◌else◌,
  length, map, ◌∙◌,
}
use mproxy.Prelude.Int.{pos, max_int64, since-le, lt-since}
use mproxy.Errors.{Err}
use mproxy.Breaker.{
  State, state_closed, state_half_open, state_open, CircuitBreaker, before_call, after_call, Times,
  call, Event, after, run, err_circuit_open,
}
use mproxy.Breaker.Automaton.{
  Limits, Phase, closed_after, open_since, half_open_after, Has, Shows, trace, run-Shows,
}

-- The outcome of one call on an open breaker. Until `reset_timeout` is over the caller's function
-- is not run, the caller has `ErrCircuitOpen`, and the breaker is as it was. From then on the
-- function is run, its error is the caller's, and the breaker has tried the half-open state.
call-open {ℓ} :
    {S : Type ℓ} (cb : CircuitBreaker) (fn : S → S × Option Err) (s : S) (t : Times) (r : ℕ)
    → cb.state ≡ state_open
    → cb.config.reset_timeout ≡ pos r
    → r < max_int64
    → ((t.checked ≤ cb.last_state_change + r) → call cb fn s t ≡ (cb, s, some err_circuit_open))
      × ((cb.last_state_change + r < t.checked)
          → call cb fn s t ≡ (
            after_call (before_call cb t.checked t.admitted).0 (fn s).1 t.returned t.recorded,
            (fn s).0,
            (fn s).1,
          )
            × ((before_call cb t.checked t.admitted).0.state ≡ state_half_open)
            × ((before_call cb t.checked t.admitted).0.successes ≡ pos 0))
unfolding call before_call
call-open cb fn s t r o e k = (
  λ h. ground (arith, since-le t.checked cb.last_state_change r),
  λ h.
      let early = lt-since t.checked cb.last_state_change r k h in
      (ground arith, ground arith, ground arith),
)

-- Calls that ended in an error, and calls that ended well, with their two clock readings.
abbrev pub failing : List (Err × ℕ × ℕ) → List Event
failing = map (λ (e, now, now'). after (some e) now now')

abbrev pub succeeding : List (ℕ × ℕ) → List Event
succeeding = map (λ (now, now'). after none now now')

trace-open :
    (l : Limits) (t : ℕ) (fs : List (Err × ℕ × ℕ))
    → trace l (open_since t) (failing fs) ≡ open_since t
unfolding trace
trace-open l t [] = refl
trace-open l t ((e, now, now') ∷ fs) = trace-open l t fs

-- The state of a phase.
abbrev state_of : Phase → State
state_of (closed_after k) = state_closed
state_of (open_since t) = state_open
state_of (half_open_after k) = state_half_open

Shows-state : (l : Limits) (cb : CircuitBreaker) (p : Phase) → Shows l cb p → cb.state ≡ state_of p
Shows-state l cb (closed_after k) s = s.0
Shows-state l cb (open_since t) s = s.0
Shows-state l cb (half_open_after k) s = s.0

trace-failing :
    (l : Limits) (k : ℕ) (fs : List (Err × ℕ × ℕ))
    → k < l.failures
    → state_of (trace l (closed_after k) (failing fs))
      ≡ (if leb l.failures (k + length fs) then state_open else state_closed)
unfolding trace
trace-failing l k [] h = ground arith
trace-failing l k ((e, now, now') ∷ fs) h =
    ground (arith, trace-open l now' fs, trace-failing l (suc k) fs)

-- A closed breaker with no failures opens at the failure that makes `max_failures` of them, and
-- not before.
run-failing :
    (l : Limits) (cb : CircuitBreaker) (fs : List (Err × ℕ × ℕ))
    → Has l cb
    → Shows l cb (closed_after 0)
    → (run cb (failing fs)).state
      ≡ (if leb l.failures (length fs) then state_open else state_closed)
run-failing l cb fs h s =
    let r = run-Shows l cb (closed_after 0) (failing fs) h s in
    Shows-state l (run cb (failing fs)) (trace l (closed_after 0) (failing fs)) r.1
    ∙ trace-failing l 0 fs h.failures_range.0
    ∙ ground arith

trace-closed :
    (l : Limits) (ts : List (ℕ × ℕ)) → trace l (closed_after 0) (succeeding ts) ≡ closed_after 0
unfolding trace
trace-closed l [] = refl
trace-closed l ((now, now') ∷ ts) = trace-closed l ts

trace-succeeding :
    (l : Limits) (k : ℕ) (ts : List (ℕ × ℕ))
    → k < l.successes
    → state_of (trace l (half_open_after k) (succeeding ts))
      ≡ (if leb l.successes (k + length ts) then state_closed else state_half_open)
unfolding trace
trace-succeeding l k [] h = ground arith
trace-succeeding l k ((now, now') ∷ ts) h =
    ground (arith, trace-closed l ts, trace-succeeding l (suc k) ts)

-- A half-open breaker closes at the success that makes `success_threshold` of them since it
-- became half open, and not before; one failure at any point before that opens it again.
run-half_open :
    (l : Limits) (cb : CircuitBreaker) (ts : List (ℕ × ℕ)) (e : Err) (now now' : ℕ)
    → Has l cb
    → Shows l cb (half_open_after 0)
    → ((run cb (succeeding ts)).state
        ≡ (if leb l.successes (length ts) then state_closed else state_half_open))
      × (length ts < l.successes
          → (after_call (run cb (succeeding ts)) (some e) now now').state ≡ state_open)
unfolding after_call
run-half_open l cb ts e now now' h s =
    let r = run-Shows l cb (half_open_after 0) (succeeding ts) h s in
    let e1 =
      Shows-state l (run cb (succeeding ts)) (trace l (half_open_after 0) (succeeding ts)) r.1
      ∙ trace-succeeding l 0 ts h.successes_range.0 in
    (ground (arith, e1), λ k. ground (arith, e1))
