-- ===== src/Parser/WebSocket/LikeTcp.antt =====
-- pkg/parser/websocket/parser.go and pkg/server/tcp/server.go: a session as a TCP connection.
use mproxy.Prelude.{
  ◌≡◌, ◌↔◌, refl, ap, ◌∙◌, true, false, ◌&&◌, Option, none, some, List, [], ◌∷◌, map, Bool-cases,
  inl, inr,
}
use mproxy.Errors.{Err}
use mproxy.Handler.{Handler}
use mproxy.Parser.{Direction, upstream, downstream, Parser}
use mproxy.Tcp.Connection.{
  Connection, Target, target, Deadlines, deadlines_set, find_conn, set_conn, drop_conn, is_done,
}
use mproxy.Tcp.Server.{Server, Event, rounds}
use mproxy.Tcp.Server as TcpServer
use mproxy.Tcp.Connection as TcpConnection
use mproxy.Parser.WebSocket.{Session, stream_ended, end_stream, stream_round, stream_rounds, finish}

abbrev pub as_connection : {S W : Type 0} → Option Err → Session S W → Connection
as_connection e x = record {
  id = 0;
  context = x.context;
  streaming = true;
  up_done = x.up_done;
  down_done = x.down_done;
  stream_err = e;
}

-- The server `sv` with the session as its one connection, the errors of whose streams gave `e`.
abbrev pub as_tcp : {S W : Type 0} → Server S W → Option Err → Session S W → Server S W
as_tcp sv e x = record sv { conns = as_connection e x ∷ []; state = x.state; net = x.net }

-- The same round as an event of the server.
abbrev pub as_event : {R : Type 0} → Direction × R → Event R
as_event p = rounds 0 (p.0) deadlines_set (p.1)

module _ {S W R : Type 0} (h : Handler S) (parser : Target → Parser S R W) (sv : Server S W) where
  -- The session's parser, writing to the one connection.
  abbrev pub session_parser : Direction → Parser S R W
  session_parser dir = parser (target 0 dir)

  ended-as_tcp :
      (e : Option Err) (x : Session S W) (dir : Direction) (r : R) (o : Option Err)
      → (parser (target 0 dir) r dir x.state x.context x.net).error ≡ o
      → stream_ended h session_parser x dir ≡ false
      → sv.forced ≡ false
      → (e' : Option Err) × (TcpServer.stream_round h parser (as_tcp sv e x) 0 dir deadlines_set r
          ≡ as_tcp sv e' (stream_round h session_parser x dir r))
  unfolding TcpServer.stream_round TcpServer.stream_conn TcpServer.continue_or_end
      TcpConnection.end_stream find_conn set_conn is_done stream_round end_stream stream_ended
  ended-as_tcp e x upstream r none is going forced =
      let open_ : x.up_done ≡ false = going in (e, rw (open_, forced, is) refl)
  ended-as_tcp e x downstream r none is going forced =
      let open_ : x.down_done ≡ false = going in (e, rw (open_, forced, is) refl)
  ended-as_tcp e x upstream r (some err) is going forced =
      let open_ : x.up_done ≡ false = going in
      (
        (TcpConnection.end_stream (as_connection e x) upstream err).stream_err,
        rw (open_, forced, is) refl,
      )
  ended-as_tcp e x downstream r (some err) is going forced =
      let open_ : x.down_done ≡ false = going in
      (
        (TcpConnection.end_stream (as_connection e x) downstream err).stream_err,
        rw (open_, forced, is) refl,
      )

  idle-as_tcp :
      (e : Option Err) (x : Session S W) (dir : Direction) (r : R)
      → stream_ended h session_parser x dir ≡ true
      → TcpServer.stream_round h parser (as_tcp sv e x) 0 dir deadlines_set r
        ≡ as_tcp sv e (stream_round h session_parser x dir r)
  unfolding TcpServer.stream_round find_conn is_done stream_round stream_ended
  idle-as_tcp e x upstream r over = let done : x.up_done ≡ true = over in rw done refl
  idle-as_tcp e x downstream r over = let done : x.down_done ≡ true = over in rw done refl

  round-as_tcp :
      (e : Option Err) (x : Session S W) (dir : Direction) (r : R)
      → sv.forced ≡ false
      → (e' : Option Err) × (TcpServer.stream_round h parser (as_tcp sv e x) 0 dir deadlines_set r
          ≡ as_tcp sv e' (stream_round h session_parser x dir r))
  round-as_tcp e x dir r forced = elim (Bool-cases (stream_ended h session_parser x dir)) [
    | inl over ↦ (e, idle-as_tcp e x dir r over)
    | inr going ↦ ended-as_tcp e x dir r _ refl going forced
  ]

  rounds-as_tcp :
      (e : Option Err) (x : Session S W) (ps : List (Direction × R))
      → sv.forced ≡ false
      → (e' : Option Err) × (TcpServer.run h parser (as_tcp sv e x) (map as_event ps)
          ≡ as_tcp sv e' (stream_rounds h session_parser x ps))
  unfolding TcpServer.run TcpServer.step stream_rounds
  rounds-as_tcp e x [] forced = (e, refl)
  rounds-as_tcp e x (p ∷ ps) forced =
      let (e1, first) = round-as_tcp e x (p.0) (p.1) forced in
      let (e2, rest) = rounds-as_tcp e1 (stream_round h session_parser x (p.0) (p.1)) ps forced in
      (e2, ap (λ s. TcpServer.run h parser s (map as_event ps)) first ∙ rest)

  finish-as_tcp :
      (e : Option Err) (x : Session S W)
      → x.closed ≡ false
      → let ended = TcpServer.finish h parser (as_tcp sv e x) 0 in
        let left = finish h session_parser x in
        (ended.state ≡ left.state)
        × (ended.net ≡ left.net)
        × (ended.conns ≡ [] ↔ left.closed ≡ true)
  unfolding TcpServer.finish TcpServer.end_conn find_conn drop_conn finish
  finish-as_tcp e x open_ = elim (Bool-cases (x.up_done && x.down_done)) [
    | inl over ↦ rw over (refl, refl, ((λ q. refl), (λ q. refl)))
    | inr going ↦ rw going (refl, refl, ((λ q. cc), (λ q. cc)))
  ]

  end_stream-closed :
      (x : Session S W) (dir : Direction) (e : Option Err)
      → (end_stream h session_parser x dir e).closed ≡ x.closed
  unfolding end_stream
  end_stream-closed x dir none = refl
  end_stream-closed x upstream (some e) = refl
  end_stream-closed x downstream (some e) = refl

  round-closed :
      (x : Session S W) (dir : Direction) (r : R)
      → (stream_round h session_parser x dir r).closed ≡ x.closed
  unfolding stream_round
  round-closed x dir r = elim (Bool-cases (stream_ended h session_parser x dir)) [
    | inl over ↦ rw (over, stream_round) refl
    | inr going ↦ rw (going, stream_round) (end_stream-closed _ dir _)
  ]

  rounds-closed :
      (x : Session S W) (ps : List (Direction × R))
      → (stream_rounds h session_parser x ps).closed ≡ x.closed
  unfolding stream_rounds
  rounds-closed x [] = refl
  rounds-closed x (p ∷ ps) =
      rounds-closed (stream_round h session_parser x (p.0) (p.1)) ps ∙ round-closed x (p.0) (p.1)

  -- A WebSocket session does with its packets what the TCP server does with a connection. For any
  -- rounds of its two streams, the handler's state and what was sent are those of the server that has
  -- the session as its one connection, after the same rounds and the end of `handleConn`; and
  -- `ServeHTTP` has returned exactly if the server has no connection left. This is for a session that
  -- has not returned and a server whose shutdown has not been forced.
  pub session-like_tcp :
      (x : Session S W) (ps : List (Direction × R))
      → sv.forced ≡ false
      → x.closed ≡ false
      → let server =
          TcpServer.finish h parser
            (TcpServer.run h parser (as_tcp sv none x) (map as_event ps))
            0 in
        let left = finish h session_parser (stream_rounds h session_parser x ps) in
        (server.state ≡ left.state)
        × (server.net ≡ left.net)
        × (server.conns ≡ [] ↔ left.closed ≡ true)
  session-like_tcp x ps forced open_ =
      let (e, same) = rounds-as_tcp none x ps forced in
      rw same (finish-as_tcp e (stream_rounds h session_parser x ps) (rounds-closed x ps ∙ open_))
