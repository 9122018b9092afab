-- ===== src/Examples/Breaker.antt =====
-- pkg/breaker/breaker.go at concrete inputs: a limit of three failures and two successes, and a
-- reset timeout of 100 ns.
use mproxy.Prelude.{◌≡◌, refl, true, List, [], ◌∷◌, arith, none, some, Option, is_none, ℕ, suc}
use mproxy.Prelude.Int.{pos, i64, ◌+ℤ◌, since}
use mproxy.Errors.{Err, other, eof}
use mproxy.Breaker.{
  Config, CircuitBreaker, new as new_breaker, before_call, Times, Event, before, after, state_open,
  run, after_call,
}
use mproxy.Breaker.Automaton.{
  Limits, closed_after, half_open_after, Has, Shows, admits, trace, run-refines,
}
use mproxy.Breaker.Calls.{failing}

abbrev config : Config
config = record {
  max_failures = pos 3;
  reset_timeout = pos 100;
  success_threshold = pos 2;
  timeout = pos 0;
}

abbrev limits : Limits
limits = record { failures = 3; successes = 2; reset = pos 100 }

abbrev fresh : CircuitBreaker
fresh = new_breaker config 0

abbrev oops : Err
oops = other "connection refused"

abbrev broken : List Event
broken = failing ((oops, 1, 2) ∷ (oops, 3, 4) ∷ (eof, 5, 6) ∷ [])

abbrev opened : CircuitBreaker
opened = run fresh broken

opens : opened.state ≡ state_open
unfolding run new_breaker before_call after_call i64 ◌+ℤ◌ since
opens = refl

fresh-Has : Has limits fresh
unfolding new_breaker
fresh-Has = ground arith

fresh-Shows : Shows limits fresh (closed_after 0)
unfolding new_breaker
fresh-Shows = ground arith

-- Three failures, a refused call, the half-open state, and one of two successes.
abbrev busy : List Event
busy =
    after (some oops) 1 2
    ∷ after (some oops) 3 4
    ∷ before 5 5
    ∷ after (some oops) 5 6
    ∷ before 50 51
    ∷ before 107 108
    ∷ after none 109 110
    ∷ []

run-refines_example :
    Shows limits (run fresh busy) (half_open_after 1)
    × (is_none (before_call (run fresh busy) 120 121).1 ≡ true)
unfolding trace admits since
run-refines_example = run-refines limits fresh (closed_after 0) busy 120 121 fresh-Has fresh-Shows

abbrev times : Times
times = record { checked = 60; admitted = 61; returned = 62; recorded = 63 }

-- The function would count its calls.
abbrev count_calls : ℕ → ℕ × Option Err
count_calls n = (suc n, none)

abbrev trying : CircuitBreaker
trying = (before_call opened 107 108).0

trying-Has : Has limits trying
unfolding run new_breaker before_call after_call i64 ◌+ℤ◌ since
trying-Has = ground arith

trying-Shows : Shows limits trying (half_open_after 0)
unfolding run new_breaker before_call after_call i64 ◌+ℤ◌ since
trying-Shows = ground arith
