-- ===== src/Tcp/Server/Ending.antt =====
-- pkg/server/tcp/server.go: what a forced shutdown does to the streams.
use mproxy.Prelude.{
  ℕ, ◌≤◌, ◌<◌, ◌≡◌, refl, String, Bool, true, false, not, ◌&&◌, Option, none, some, List, [], ◌∷◌,
  arith, All, Option-cases, Bool-cases, inl, inr, ◌∙◌, sym,
}
use mproxy.Errors.{Err}
use mproxy.Handler.{Context, Handler}
use mproxy.Parser.{Direction, Parser}
use mproxy.Tcp.Connection.{
  Connection, Target, Started, Deadlines, handshake_failed, undialed, dialed, deadlines_set,
  context_done, read_deadline_failed, write_deadline_failed, find_conn, set_conn, fresh_connection,
  end_stream, is_done, target,
}
use mproxy.Tcp.Server.{
  Config, Server, Event, accepts, starts, rounds, finishes, stops, times_out, new, accept, admit,
  end_conn, start, start_conn, begin_streams, stream_round, stream_conn, continue_or_end, canceled,
  finish, step, run,
}
use mproxy.Tcp.Server.Places.{id-begin_streams, id-find_conn, served, IsPlaced, run-IsPlaced}
use mproxy.Tcp.Server.Over.{
  IsOver, id-end_stream, end_stream-IsOver, own-IsOver, set_conn-IsOver, drop_conn-IsOver,
  find_conn-IsOver, append-IsOver, only-IsOver, not-is_open, not-found, is_open-served,
  context-IsOver,
}
use mproxy.Tcp.Server.Waiting.{is_open, is_open-find_conn}

module _ (a : ℕ) (dir : Direction) where
  module _ {S W : Type 0} where
    -- The connection was admitted, and its stream is over if it is still there.
    abbrev IsGone : Server S W → Type 0
    IsGone sv = (a < sv.next_id) × All (IsOver a dir) sv.conns

    accept-IsGone :
        (sv : Server S W) (remote_addr id : String) (configured : Option Err)
        → IsGone sv
        → IsGone (accept sv remote_addr id configured)
    unfolding accept admit fresh_connection
    accept-IsGone sv remote_addr id configured g =
        let other : IsOver a dir (fresh_connection sv.next_id remote_addr id) =
          λ q. ground (arith, g.0, q) in
        ground (
          arith,
          g,
          append-IsOver a dir sv.conns (fresh_connection sv.next_id remote_addr id) g.1 other,
        )

    started-IsGone :
        (sv : Server S W) (c : Connection) (result : Started)
        → c.streaming ≡ false
        → IsOver a dir c
        → IsGone sv
        → IsGone (start_conn sv c result)
    unfolding start_conn end_conn
    started-IsGone sv c (handshake_failed e) idle over g =
        (g.0, drop_conn-IsOver a dir c.id sv.conns g.1)
    started-IsGone sv c (undialed e) idle over g = (g.0, drop_conn-IsOver a dir c.id sv.conns g.1)
    started-IsGone sv c (dialed cert) idle over g =
        let d : Connection = record c {
          streaming = true;
          context = record c.context { cert = cert };
        } in
        (
          g.0,
          set_conn-IsOver a dir (begin_streams sv.forced d) sv.conns
              (λ q. ground (arith, idle, over, q, id-begin_streams sv.forced d)) g.1,
        )

    start-IsGone :
        (sv : Server S W) (b : ℕ) (result : Started) → IsGone sv → IsGone (start sv b result)
    unfolding start
    start-IsGone sv b result g = elim (Option-cases (find_conn b sv.conns)) [
      | inl e ↦ rw (e, start) g
      | inr (c, e) ↦ elim (Bool-cases c.streaming) [
        | inl going ↦ rw (e, start) (rw going g)
        | inr idle ↦
            rw (e, start)
              (ground (
                arith,
                g,
                idle,
                started-IsGone sv c result idle (find_conn-IsOver a dir b c sv.conns g.1 e) g,
              ))
      ]
    ]

    module _ {R : Type 0} (h : Handler S) (parser : Target → Parser S R W) where
      continue_or_end-IsOver :
          (forced : Bool) (c : Connection) (dir' : Direction) (hctx : Context) (e : Option Err)
          → IsOver a dir c
          → IsOver a dir (continue_or_end h parser forced (record c { context = hctx }) dir' e)
      unfolding continue_or_end is_done
      continue_or_end-IsOver forced c dir' hctx (some e) over =
          end_stream-IsOver a dir (record c { context = hctx }) dir' e
            (context-IsOver a dir c hctx over)
      continue_or_end-IsOver true c dir' hctx none over =
          end_stream-IsOver a dir (record c { context = hctx }) dir' canceled
            (context-IsOver a dir c hctx over)
      continue_or_end-IsOver false c dir' hctx none over = context-IsOver a dir c hctx over

      streamed-IsGone :
          (sv : Server S W) (c : Connection) (dir' : Direction) (deadlines : Deadlines) (r : R)
          → IsOver a dir c
          → IsGone sv
          → IsGone (stream_conn h parser sv c dir' deadlines r)
      unfolding stream_conn
      streamed-IsGone sv c dir' (read_deadline_failed e) r over g =
          (g.0, set_conn-IsOver a dir _ sv.conns (end_stream-IsOver a dir c dir' _ over) g.1)
      streamed-IsGone sv c dir' (write_deadline_failed e) r over g =
          (g.0, set_conn-IsOver a dir _ sv.conns (end_stream-IsOver a dir c dir' _ over) g.1)
      streamed-IsGone sv c dir' context_done r over g = ground (
        arith,
        g,
        set_conn-IsOver a dir (end_stream c dir' canceled) sv.conns
            (end_stream-IsOver a dir c dir' canceled over) g.1,
      )
      streamed-IsGone sv c dir' deadlines_set r over g = (
        g.0,
        set_conn-IsOver a dir _ sv.conns (continue_or_end-IsOver sv.forced c dir' _ _ over) g.1,
      )

      round-IsGone :
          (sv : Server S W) (b : ℕ) (dir' : Direction) (deadlines : Deadlines) (r : R)
          → IsGone sv
          → IsGone (stream_round h parser sv b dir' deadlines r)
      unfolding stream_round
      round-IsGone sv b dir' deadlines r g = elim (Option-cases (find_conn b sv.conns)) [
        | inl e ↦ rw (e, stream_round) g
        | inr (c, e) ↦
            rw (e, stream_round)
              (ground (
                arith,
                g,
                streamed-IsGone sv c dir' deadlines r (find_conn-IsOver a dir b c sv.conns g.1 e) g,
              ))
      ]

      finish-IsGone : (sv : Server S W) (b : ℕ) → IsGone sv → IsGone (finish h parser sv b)
      unfolding finish end_conn
      finish-IsGone sv b g = elim (Option-cases (find_conn b sv.conns)) [
        | inl e ↦ rw (e, finish) g
        | inr (c, e) ↦ rw (e, finish) (ground (arith, g, drop_conn-IsOver a dir b sv.conns g.1))
      ]

      step-IsGone : (sv : Server S W) (e : Event R) → IsGone sv → IsGone (step h parser sv e)
      unfolding step
      step-IsGone sv (accepts remote_addr id configured) g =
          accept-IsGone sv remote_addr id configured g
      step-IsGone sv (starts b result) g = start-IsGone sv b result g
      step-IsGone sv (rounds b dir' deadlines r) g = round-IsGone sv b dir' deadlines r g
      step-IsGone sv (finishes b) g = finish-IsGone sv b g
      step-IsGone sv stops g = g
      step-IsGone sv times_out g = g

      run-IsGone : (sv : Server S W) (es : List (Event R)) → IsGone sv → IsGone (run h parser sv es)
      unfolding run
      run-IsGone sv [] g = g
      run-IsGone sv (e ∷ es) g = run-IsGone (step h parser sv e) es (step-IsGone sv e g)

      ended-only :
          (forced : Bool) (c : Connection) (hctx : Context) (e : Option Err) (cs : List Connection)
          → forced ≡ true
          → c.id ≡ a
          → c.streaming ≡ true
          → served a cs ≤ 1
          → All
              (IsOver a dir)
              (set_conn (continue_or_end h parser forced (record c { context = hctx }) dir e) cs)
      unfolding continue_or_end
      ended-only forced c hctx (some e) cs is same streaming one =
          let d = record c { context = hctx } in
          only-IsOver a dir (end_stream d dir e) cs (id-end_stream d dir e ∙ same) one
            (own-IsOver a dir d e streaming)
      ended-only true c hctx none cs is same streaming one =
          let d = record c { context = hctx } in
          only-IsOver a dir (end_stream d dir canceled) cs (id-end_stream d dir canceled ∙ same) one
            (own-IsOver a dir d canceled streaming)
      ended-only false c hctx none cs is same streaming one = cc

      -- The round that is made after the forced shutdown.
      last-IsGone :
          (sv : Server S W) (c : Connection) (deadlines : Deadlines) (r : R)
          → sv.forced ≡ true
          → c.id ≡ a
          → c.streaming ≡ true
          → a < sv.next_id
          → served a sv.conns ≤ 1
          → IsGone (stream_conn h parser sv c dir deadlines r)
      unfolding stream_conn
      last-IsGone sv c (read_deadline_failed e) r forced same streaming new one = (
        new,
        only-IsOver a dir _ sv.conns (id-end_stream c dir _ ∙ same) one
            (own-IsOver a dir c _ streaming),
      )
      last-IsGone sv c (write_deadline_failed e) r forced same streaming new one = (
        new,
        only-IsOver a dir _ sv.conns (id-end_stream c dir _ ∙ same) one
            (own-IsOver a dir c _ streaming),
      )
      last-IsGone sv c context_done r forced same streaming new one = rw forced (
        new,
        only-IsOver a dir (end_stream c dir canceled) sv.conns (id-end_stream c dir canceled ∙ same)
            one (own-IsOver a dir c canceled streaming),
      )
      last-IsGone sv c deadlines_set r forced same streaming new one =
          let o = parser (target c.id dir) r dir sv.state c.context sv.net in
          (new, ended-only sv.forced c o.hctx o.error sv.conns forced same streaming one)

      last_round-IsGone :
          (sv : Server S W) (deadlines : Deadlines) (r : R)
          → IsPlaced a sv
          → sv.forced ≡ true
          → is_open a dir sv.conns ≡ true
          → IsGone (stream_round h parser sv a dir deadlines r)
      unfolding stream_round
      last_round-IsGone sv deadlines r placed forced o =
          elim (Option-cases (find_conn a sv.conns)) [
            | inl e ↦ let closed = not-found a dir sv.conns e in cc
            | inr (c, e) ↦
                let going : (c.streaming && not (is_done c dir)) ≡ true =
                  sym (is_open-find_conn a dir a c sv.conns refl e) ∙ o in
                let there = is_open-served a dir sv.conns o in
                rw (e, stream_round)
                  (rw going (
                    last-IsGone sv c deadlines r forced (id-find_conn a c sv.conns e)
                      (ground (arith, going)) (ground (arith, there, placed))
                      (ground (arith, placed))))
          ]

      -- After a forced shutdown a stream sends at most the packet that it was waiting for. Take any
      -- events of a server from its start, after which the shutdown's timer has fired, and a stream that
      -- has not ended. Whatever its next round brings, the stream has ended by it, and no later events,
      -- whatever they are, open it again.
      pub run-ended :
          (c : Config) (s : S) (w : W) (before after : List (Event R)) (deadlines : Deadlines)
          (r : R)
          → let sv = run h parser (new c s w) before in
            sv.forced ≡ true
            → is_open a dir sv.conns ≡ true
            → is_open a dir (run h parser sv (rounds a dir deadlines r ∷ after)).conns ≡ false
      unfolding run step new
      run-ended c s w before after deadlines r forced o =
          let sv = run h parser (new c s w) before in
          let placed = run-IsPlaced a h parser (new c s w) before (ground arith) in
          not-is_open a dir _
            (run-IsGone (stream_round h parser sv a dir deadlines r) after
              (last_round-IsGone sv deadlines r placed forced o)).1
