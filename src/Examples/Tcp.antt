-- ===== src/Examples/Tcp.antt =====
-- pkg/server/tcp/server.go at concrete inputs: one connection at most, and a parser that relays what
-- it is given and fails at the end of the input.
use mproxy.Prelude.{
  ◌≡◌, refl, true, List, [], ◌∷◌, ◌++◌, false, none, some, ℕ, ◌+◌, arith, length, ltb,
  if◌then◌else◌,
}
use mproxy.Prelude.Int.{pos, ◌≤ℤ◌}
use mproxy.Errors.{eof}
use mproxy.Handler.{noop_handler}
use mproxy.Parser.{upstream, downstream, Parser}
use mproxy.Tcp.Connection.{Target, dialed, deadlines_set, set_conn, find_conn, is_done}
use mproxy.Tcp.Server.{
  Config, Server, Event, accepts, starts, rounds, finishes, stops, times_out, new, run, step,
  accept, start, stream_round, with_defaults, is_limited,
}
use mproxy.Tcp.Server.Limits.{run-connections}
use mproxy.Tcp.Server.Places.{served, returned}
use mproxy.Tcp.Server.Ending.{run-ended}
use mproxy.Tcp.Server.Waiting.{same_direction, is_open, run-open}

abbrev relay : Target → Parser ℕ (List ℕ) (List ℕ)
relay t [] d s c w = record { state = s; hctx = c; inp = []; out = w; error = some eof }
relay t (b ∷ bs) d s c w = record { state = s; hctx = c; inp = bs; out = b ∷ w; error = none }

abbrev config : Config
config = record {
  target_address = "backend:1883";
  shutdown_timeout = pos 10;
  max_connections = pos 1;
  read_timeout = pos 0;
  write_timeout = pos 0;
}

-- Two clients come, and the first is served.
abbrev opening : List (Event (List ℕ))
opening =
    accepts "a:1" "s1" none
    ∷ accepts "b:1" "s2" none
    ∷ starts 0 (dialed none)
    ∷ rounds 0 upstream deadlines_set (4 ∷ [])
    ∷ []

-- Its input ends, and the shutdown runs into its timeout.
abbrev closing : List (Event (List ℕ))
closing = rounds 0 upstream deadlines_set [] ∷ finishes 0 ∷ stops ∷ times_out ∷ finishes 0 ∷ []

abbrev busy : Server ℕ (List ℕ)
busy = run (noop_handler ℕ) relay (new config 0 []) opening

run-connections_example :
    (busy.slots ≡ length busy.conns)
    × (pos (length busy.conns) ≤ℤ pos 1)
    × (busy.next_id ≡ length busy.conns + length busy.results)
    × ((a : ℕ)
        → served a busy.conns + returned a busy.results ≡ (if ltb a busy.next_id then 1 else 0))
run-connections_example = run-connections (noop_handler ℕ) relay config 0 [] opening (omega arith)

-- The downstream stream makes no round, so the connection is kept.
run-open_example : is_open 0 downstream (run (noop_handler ℕ) relay busy closing).conns ≡ true
unfolding same_direction is_open run step stream_round find_conn start accept new is_limited
    with_defaults set_conn is_done
run-open_example =
    run-open 0 downstream (noop_handler ℕ) relay busy closing (refl, (tt, (tt, (tt, (tt, tt)))))
      refl

-- After the timeout, one more packet comes, and then another.
abbrev timing_out : List (Event (List ℕ))
timing_out = opening ++ stops ∷ times_out ∷ []

abbrev coming : List (Event (List ℕ))
coming = rounds 0 upstream deadlines_set (6 ∷ []) ∷ accepts "c:1" "s3" none ∷ []

run-ended_example :
    is_open 0 upstream
      (run
        (noop_handler ℕ)
        relay
        (run (noop_handler ℕ) relay (new config 0 []) timing_out)
        (rounds 0 upstream deadlines_set (5 ∷ []) ∷ coming)).conns
    ≡ false
unfolding same_direction is_open run step stream_round find_conn start accept new is_limited
    with_defaults set_conn is_done
run-ended_example =
    run-ended 0 upstream (noop_handler ℕ) relay config 0 [] timing_out coming deadlines_set (5 ∷ [])
      refl refl
