-- ===== src/Breaker/Automaton.antt =====
-- pkg/breaker/breaker.go against an abstract automaton: three phases, one counter each, and no
-- other field. The order in which threads take the lock is any list of events.
use mproxy.Prelude.{
  ℕ, suc, ◌≤◌, ◌<◌, ◌≡◌, Bool, true, List, [], ◌∷◌, arith, none, some, Option, leb, ◌∙◌,
  if◌then◌else◌, is_none,
}
use mproxy.Prelude.Int.{ℤ, pos, ltb_ℤ, ◌+ℤ◌, i64_id, max_int64, inc, since}
use mproxy.Errors.{Err}
use mproxy.Breaker.{
  state_closed, state_half_open, state_open, CircuitBreaker, before_call, after_call, register,
  Event, before, after, registers, step, run,
}

pub record Limits : Type 0 where
  pub failures : ℕ
  pub successes : ℕ
  pub reset : ℤ

-- Closed after some consecutive failures, open since an instant, half open after some successes.
pub data Phase : Type 0 where
  closed_after : ℕ → Phase
  open_since : ℕ → Phase
  half_open_after : ℕ → Phase

unfoldable pub admits : Limits → Phase → ℕ → Bool
admits l (open_since t) now = ltb_ℤ l.reset (since now t)
admits l _ now = true

next_before : Limits → Phase → ℕ → Phase
next_before l (open_since t) now =
    if ltb_ℤ l.reset (since now t) then half_open_after 0 else open_since t
next_before l p now = p

next_after : Limits → Phase → Option Err → ℕ → Phase
next_after l (closed_after k) none now' = closed_after 0
next_after l (closed_after k) (some e) now' =
    if leb l.failures (suc k) then open_since now' else closed_after (suc k)
next_after l (half_open_after k) none now' =
    if leb l.successes (suc k) then closed_after 0 else half_open_after (suc k)
next_after l (half_open_after k) (some e) now' = open_since now'
next_after l (open_since t) err now' = open_since t

unfoldable pub next : Limits → Phase → Event → Phase
unfolding next_before next_after
next l p (before now now') = next_before l p now
next l p (after err now now') = next_after l p err now'
next l p (registers f) = p

unfoldable pub trace : Limits → Phase → List Event → Phase
unfolding next
trace l p [] = p
trace l p (e ∷ es) = trace l (next l p e) es

-- The breaker has these limits.
pub record Has (l : Limits) (cb : CircuitBreaker) : Type 0 where
  pub failures_eq : cb.config.max_failures ≡ pos l.failures
  pub successes_eq : cb.config.success_threshold ≡ pos l.successes
  pub reset_eq : cb.config.reset_timeout ≡ l.reset
  pub failures_range : (0 < l.failures) × (l.failures ≤ max_int64)
  pub successes_range : (0 < l.successes) × (l.successes ≤ max_int64)

-- The breaker is in this phase, with its counter.
abbrev pub Shows : Limits → CircuitBreaker → Phase → Type 0
Shows l cb (closed_after k) = (cb.state ≡ state_closed) × (cb.failures ≡ pos k) × (k < l.failures)
Shows l cb (open_since t) = (cb.state ≡ state_open) × (cb.last_state_change ≡ t)
Shows l cb (half_open_after k) =
    (cb.state ≡ state_half_open) × (cb.successes ≡ pos k) × (k < l.successes)

inc_pos : (n : ℕ) → n < max_int64 → inc (pos n) ≡ pos (suc n)
unfolding ◌+ℤ◌
inc_pos n h = i64_id (pos n +ℤ pos 1) (ground arith) ∙ ground arith

before_call-Shows :
    (l : Limits) (cb : CircuitBreaker) (p : Phase) (now now' : ℕ)
    → Has l cb
    → Shows l cb p
    → Has l (before_call cb now now').0 × Shows l (before_call cb now now').0 (next_before l p now)
unfolding before_call next_before
before_call-Shows l cb (closed_after k) now now' h s = ground arith
before_call-Shows l cb (open_since t) now now' h s = ground arith
before_call-Shows l cb (half_open_after k) now now' h s = ground arith

after_call-Shows :
    (l : Limits) (cb : CircuitBreaker) (p : Phase) (err : Option Err) (now now' : ℕ)
    → Has l cb
    → Shows l cb p
    → Has l (after_call cb err now now')
      × Shows l (after_call cb err now now') (next_after l p err now')
unfolding after_call next_after
after_call-Shows l cb (closed_after k) none now now' h s = ground arith
after_call-Shows l cb (closed_after k) (some e) now now' h s = ground (arith, inc_pos k)
after_call-Shows l cb (half_open_after k) none now now' h s = ground (arith, inc_pos k)
after_call-Shows l cb (half_open_after k) (some e) now now' h s = ground arith
after_call-Shows l cb (open_since t) none now now' h s = ground arith
after_call-Shows l cb (open_since t) (some e) now now' h s = ground arith

step-Shows :
    (l : Limits) (cb : CircuitBreaker) (p : Phase) (e : Event)
    → Has l cb
    → Shows l cb p
    → Has l (step cb e) × Shows l (step cb e) (next l p e)
unfolding step next register
step-Shows l cb p (before now now') h s = before_call-Shows l cb p now now' h s
step-Shows l cb p (after err now now') h s = after_call-Shows l cb p err now now' h s
step-Shows l cb (closed_after k) (registers f) h s = ground arith
step-Shows l cb (open_since k) (registers f) h s = ground arith
step-Shows l cb (half_open_after k) (registers f) h s = ground arith

pub run-Shows :
    (l : Limits) (cb : CircuitBreaker) (p : Phase) (es : List Event)
    → Has l cb
    → Shows l cb p
    → Has l (run cb es) × Shows l (run cb es) (trace l p es)
unfolding run trace
run-Shows l cb p [] h s = (h, s)
run-Shows l cb p (e ∷ es) h s =
    let (h', s') = step-Shows l cb p e h s in run-Shows l (step cb e) (next l p e) es h' s'

before_call-admits :
    (l : Limits) (cb : CircuitBreaker) (p : Phase) (now now' : ℕ)
    → Has l cb
    → Shows l cb p
    → is_none (before_call cb now now').1 ≡ admits l p now
unfolding before_call admits
before_call-admits l cb (closed_after k) now now' h s = ground arith
before_call-admits l cb (open_since t) now now' h s = ground arith
before_call-admits l cb (half_open_after k) now now' h s = ground arith

-- The breaker refines the automaton. After any interleaving of calls by any number of threads it
-- shows the automaton's phase and counter, and it admits the next call exactly where the automaton
-- does.
pub run-refines :
    (l : Limits) (cb : CircuitBreaker) (p : Phase) (es : List Event) (now now' : ℕ)
    → Has l cb
    → Shows l cb p
    → Shows l (run cb es) (trace l p es)
      × (is_none (before_call (run cb es) now now').1 ≡ admits l (trace l p es) now)
run-refines l cb p es now now' h s =
    let (h', s') = run-Shows l cb p es h s in
    (s', before_call-admits l (run cb es) (trace l p es) now now' h' s')
