-- ===== src/Tcp/Server.antt =====
-- pkg/server/tcp/server.go: the accept loop with its semaphore, `handleConn` with its two streams,
-- and the shutdown, as events that come in any order. What the network does is given with them.
pub mod Places
pub mod Limits
pub mod Waiting
pub mod Over
pub mod Ending
use mproxy.Prelude.{
  ℕ, suc, ◌+◌, ◌-◌, String, Bool, true, false, not, ◌&&◌, Option, none, some, List, [], ◌∷◌, ◌++◌,
  ◌==◌, if◌then◌else◌, length,
}
use mproxy.Prelude.Int.{ℤ, pos, ltb_ℤ, leb_ℤ, default_if_zero}
use mproxy.Errors.{Err, sentinel, wrapped, is, eof, ◌^^◌}
use mproxy.Handler.{Context, Handler, new_context}
use mproxy.Parser.{Direction, upstream, downstream, Outcome, Parser}
use mproxy.Tcp.Connection.{
  Connection, find_conn, set_conn, drop_conn, Target, target, Started, Deadlines, is_done,
  end_stream, fresh_connection, handshake_failed, undialed, dialed, deadlines_set, context_done,
  read_deadline_failed, write_deadline_failed,
}

abbrev pub err_shutdown_timeout : Err
err_shutdown_timeout = sentinel "tcp" "shutdown timeout exceeded"

abbrev pub canceled : Err
canceled = sentinel "context" "context canceled"

-- Without the listener's address, its TLS and the socket's options.
pub record Config : Type 0 where
  pub target_address : String
  pub shutdown_timeout : ℤ
  pub max_connections : ℤ
  pub read_timeout : ℤ
  pub write_timeout : ℤ

unfoldable pub with_defaults : Config → Config
unfolding default_if_zero
with_defaults c = record c {
  shutdown_timeout = default_if_zero c.shutdown_timeout (pos 30000000000);
  read_timeout = default_if_zero c.read_timeout (pos 60000000000);
  write_timeout = default_if_zero c.write_timeout (pos 60000000000);
}

-- `slots` is what is in the semaphore, `results` what `handleConn` returned, the last one first.
-- `net` is what has been sent.
pub record Server (S W : Type 0) : Type 0 where
  pub config : Config
  pub slots : ℕ
  pub conns : List Connection
  pub next_id : ℕ
  pub rejected : ℕ
  pub stopping : Bool
  pub forced : Bool
  pub results : List (ℕ × Option Err)
  pub state : S
  pub net : W

-- There is a semaphore.
unfoldable pub is_limited : Config → Bool
is_limited c = ltb_ℤ (pos 0) c.max_connections

pub data Event (R : Type 0) : Type 0 where
  accepts : String → String → Option Err → Event R
  starts : ℕ → Started → Event R
  rounds : ℕ → Direction → Deadlines → R → Event R
  finishes : ℕ → Event R
  stops : Event R
  times_out : Event R

-- Both streams look at the context first, and end at once if the shutdown has been forced.
unfoldable pub begin_streams : Bool → Connection → Connection
begin_streams forced c =
    if forced then end_stream (end_stream c upstream canceled) downstream canceled else c

module _ {S W : Type 0} where
  -- `New`.
  unfoldable pub new : Config → S → W → Server S W
  new c s w = record {
    config = with_defaults c;
    slots = 0;
    conns = [];
    next_id = 0;
    rejected = 0;
    stopping = false;
    forced = false;
    results = [];
    state = s;
    net = w;
  }

  unfoldable pub take_slot : Server S W → ℕ
  take_slot sv = if is_limited sv.config then suc sv.slots else sv.slots

  unfoldable pub release_slot : Server S W → ℕ
  release_slot sv = if is_limited sv.config then sv.slots - 1 else sv.slots

  unfoldable pub admit : Server S W → String → String → Option Err → Server S W
  unfolding take_slot fresh_connection
  admit sv remote_addr id (some e) = sv
  admit sv remote_addr id none = record sv {
    slots = take_slot sv;
    conns = sv.conns ++ fresh_connection sv.next_id remote_addr id ∷ [];
    next_id = suc sv.next_id;
  }

  -- A connection that the listener accepts: it is closed if the semaphore is full.
  unfoldable pub accept : Server S W → String → String → Option Err → Server S W
  unfolding admit
  accept sv remote_addr id configured =
      if sv.stopping
      then sv
      else if is_limited sv.config && leb_ℤ sv.config.max_connections (pos sv.slots)
      then record sv { rejected = suc sv.rejected }
      else admit sv remote_addr id configured

  -- `handleConn` returns.
  unfoldable pub end_conn : Server S W → ℕ → Option Err → Server S W
  unfolding release_slot
  end_conn sv a result = record sv {
    slots = release_slot sv;
    conns = drop_conn a sv.conns;
    results = (a, result) ∷ sv.results;
  }

  unfoldable pub start_conn : Server S W → Connection → Started → Server S W
  unfolding begin_streams
  start_conn sv c (handshake_failed e) = end_conn sv c.id (some (wrapped "TLS handshake failed" e))
  start_conn sv c (undialed e) =
      end_conn sv c.id (some (wrapped ("failed to dial backend " ^^ sv.config.target_address) e))
  start_conn sv c (dialed cert) = record sv {
    conns =
        set_conn
          (begin_streams sv.forced
            (record c { streaming = true; context = record c.context { cert = cert } }))
          sv.conns;
  }

  unfoldable pub start : Server S W → ℕ → Started → Server S W
  unfolding start_conn
  start sv a result = elim (find_conn a sv.conns) [
    | none ↦ sv
    | some c ↦ if c.streaming then sv else start_conn sv c result
  ]

  -- The shutdown: no more connections are accepted, and if the timer fires before the last one
  -- has ended, the context of the connections is cancelled.
  unfoldable pub shutdown_result : Server S W → Option Err
  shutdown_result sv = if sv.forced then some err_shutdown_timeout else none

  module _ {R : Type 0} (h : Handler S) (parser : Target → Parser S R W) where
    -- What follows `Parse`: its error ends the stream, and so does the next look at the context.
    unfoldable pub continue_or_end : Bool → Connection → Direction → Option Err → Connection
    continue_or_end forced c dir none = if forced then end_stream c dir canceled else c
    continue_or_end forced c dir (some e) = end_stream c dir e

    parse_one : Server S W → Connection → Direction → R → Server S W
    unfolding continue_or_end
    parse_one sv c dir r =
        let o = parser (target c.id dir) r dir sv.state c.context sv.net in
        record sv {
          conns =
              set_conn (continue_or_end sv.forced (record c { context = o.hctx }) dir o.error)
                sv.conns;
          state = o.state;
          net = o.out;
        }

    unfoldable pub stream_conn : Server S W → Connection → Direction → Deadlines → R → Server S W
    unfolding parse_one
    stream_conn sv c dir (read_deadline_failed e) r = record sv {
      conns = set_conn (end_stream c dir (wrapped "failed to set read deadline" e)) sv.conns;
    }
    stream_conn sv c dir (write_deadline_failed e) r = record sv {
      conns = set_conn (end_stream c dir (wrapped "failed to set write deadline" e)) sv.conns;
    }
    stream_conn sv c dir context_done r =
        if sv.forced
        then record sv { conns = set_conn (end_stream c dir canceled) sv.conns }
        else sv
    stream_conn sv c dir deadlines_set r = parse_one sv c dir r

    -- One round of the loop of `stream`. The context of a round that is under way is looked at again
    -- only when `Parse` has returned: after a forced shutdown it may send one more packet, or wait.
    unfoldable pub stream_round : Server S W → ℕ → Direction → Deadlines → R → Server S W
    unfolding stream_conn
    stream_round sv a dir deadlines r = elim (find_conn a sv.conns) [
      | none ↦ sv
      | some c ↦ if c.streaming && not (is_done c dir) then stream_conn sv c dir deadlines r else sv
    ]

    -- The end of `handleConn`, after both streams have sent their error.
    unfoldable pub finish : Server S W → ℕ → Server S W
    finish sv a = elim (find_conn a sv.conns) [
      | none ↦ sv
      | some c ↦
          if c.streaming && c.up_done && c.down_done
          then (let (s', c', notified) = h.on_disconnect sv.state c.context in
              end_conn (record sv { state = s' }) a c.stream_err)
          else sv
    ]

    unfoldable pub step : Server S W → Event R → Server S W
    step sv (accepts remote_addr id configured) = accept sv remote_addr id configured
    step sv (starts a result) = start sv a result
    step sv (rounds a dir deadlines r) = stream_round sv a dir deadlines r
    step sv (finishes a) = finish sv a
    step sv stops = record sv { stopping = true }
    step sv times_out = record sv { forced = sv.stopping }

    unfoldable pub run : Server S W → List (Event R) → Server S W
    run sv [] = sv
    run sv (e ∷ es) = run (step sv e) es
