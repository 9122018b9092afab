-- ===== src/Proxy/WebSocket.antt =====
-- pkg/proxy/websocket.go: what a WebSocket proxy of MQTT sends to its backends.
use mproxy.Prelude.{
  ◌≡◌, refl, sym, subst, String, Option, none, some, List, [], ◌∷◌, All, arith, Bool-cases, ◌⊎◌,
  inl, inr,
}
use mproxy.Errors.{Err}
use mproxy.Errors.Results.{Result, ok, fail, panic}
use mproxy.Handler.{Handler}
use mproxy.Parser.{Direction, upstream, downstream, Parser}
use mproxy.Parser.Mqtt.{Read, Packet, parse}
use mproxy.Parser.Mqtt.Forwarding.{IsQuiet}
use mproxy.Parser.WebSocket.{
  Request, Outside, Session, session, new_session, stream_ended, end_stream, stream_round,
  stream_rounds, finish, upgrade, build_target_url, serve_dialed, serve_target, serve_upgraded,
  serve_http,
}
use mproxy.Tcp.Connection.{Target, backend_of, client_of, target}
use mproxy.Proxy.Approval.{Sent, send, IsApproved, upstream-All, downstream-All}

module _ {S W R U : Type 0} (h : Handler S) (parser : Direction → Parser S R W)
    (o : Outside U) where
  -- A request that has a session was upgraded and its backend dialled.
  dialed_lem :
      (e : Option Err) (x : Session S W) (rounds : List (Direction × R)) (y : Session S W)
      → serve_dialed h parser o e x rounds ≡ session y
      → finish h parser (stream_rounds h parser x rounds) ≡ y
  unfolding serve_dialed
  dialed_lem (some e) x rounds y is = cc
  dialed_lem none x rounds y is = cc

  target_lem :
      (url : Result String) (x : Session S W) (rounds : List (Direction × R)) (y : Session S W)
      → serve_target h parser o url x rounds ≡ session y
      → finish h parser (stream_rounds h parser x rounds) ≡ y
  unfolding serve_target
  target_lem (fail e) x rounds y is = cc
  target_lem panic x rounds y is = cc
  target_lem (ok url) x rounds y is = dialed_lem (o.dial url) x rounds y is

  upgraded_lem :
      (e : Option Err) (url id : String) (r : Request) (s : S) (w : W)
      (rounds : List (Direction × R)) (y : Session S W)
      → serve_upgraded h parser o e url id r s w rounds ≡ session y
      → finish h parser (stream_rounds h parser (new_session id r s w) rounds) ≡ y
  unfolding serve_upgraded
  upgraded_lem (some e) url id r s w rounds y is = cc
  upgraded_lem none url id r s w rounds y is = target_lem (build_target_url o url r) _ rounds y is

module _ {S F R : Type 0} (h : Handler S) (read : R → Read F × R)
    (fails : Target → Packet F → Option Err) where
  abbrev pub mqtt_parser : Direction → Parser S R (Sent F)
  mqtt_parser dir = parse h read (send fails (target 0 dir))

  -- A round of the session's upstream sends a packet to the backend, and approves it with the
  -- handler's state and the session's context of then.
  abbrev pub IsRoundOf : Session S (Sent F) → Direction × R → Target × Packet F → Type 0
  IsRoundOf x p (client_of b, q) = Unit
  IsRoundOf x (upstream, r) (backend_of b, q) = IsApproved h read fails r x.state x.context q
  IsRoundOf x (downstream, r) (backend_of b, q) = ⊥

  -- One of the rounds sends it.
  abbrev pub IsOfRounds : Session S (Sent F) → List (Direction × R) → Target × Packet F → Type 0
  IsOfRounds x [] t = ⊥
  IsOfRounds x (p ∷ ps) t =
      IsRoundOf x p t ⊎ IsOfRounds (stream_round h mqtt_parser x (p.0) (p.1)) ps t

  module _ (P : Target × Packet F → Type 0) (quiet : IsQuiet h) where
    end_stream-net :
        (x : Session S (Sent F)) (dir : Direction) (e : Option Err)
        → (end_stream h mqtt_parser x dir e).net ≡ x.net
    unfolding end_stream
    end_stream-net x dir none = refl
    end_stream-net x upstream (some e) = refl
    end_stream-net x downstream (some e) = refl

    parsed_lem :
        (x : Session S (Sent F)) (dir : Direction) (r : R)
        → ((t : Target × Packet F) → IsRoundOf x (dir, r) t → P t)
        → All P x.net
        → All P (mqtt_parser dir r dir x.state x.context x.net).out
    unfolding target
    parsed_lem x upstream r f sound =
        upstream-All h read fails P quiet 0 r x.state x.context x.net (read r) refl
          (λ q is. f (backend_of 0, q) is) sound
    parsed_lem x downstream r f sound =
        downstream-All h read fails P 0 r x.state x.context x.net (read r) refl
          (λ q. f (client_of 0, q) tt) sound

    round_lem :
        (x : Session S (Sent F)) (dir : Direction) (r : R)
        → ((t : Target × Packet F) → IsRoundOf x (dir, r) t → P t)
        → All P x.net
        → All P (stream_round h mqtt_parser x dir r).net
    unfolding stream_round
    round_lem x dir r f sound = elim (Bool-cases (stream_ended h mqtt_parser x dir)) [
      | inl over ↦ rw (over, stream_round) sound
      | inr going ↦
          rw (going, stream_round)
            (subst (All P) (sym (end_stream-net _ dir _)) (parsed_lem x dir r f sound))
    ]

    rounds_lem :
        (x : Session S (Sent F)) (ps : List (Direction × R))
        → ((t : Target × Packet F) → IsOfRounds x ps t → P t)
        → All P x.net
        → All P (stream_rounds h mqtt_parser x ps).net
    unfolding stream_rounds
    rounds_lem x [] f sound = sound
    rounds_lem x (p ∷ ps) f sound =
        rounds_lem (stream_round h mqtt_parser x (p.0) (p.1)) ps (λ t is. f t (inr is))
          (round_lem x (p.0) (p.1) (λ t is. f t (inl is)) sound)

  finish-net : (x : Session S (Sent F)) → (finish h mqtt_parser x).net ≡ x.net
  unfolding finish
  finish-net x = ground arith

  left_lem :
      (id : String) (r : Request) (s : S) (ps : List (Direction × R))
      → IsQuiet h
      → All
          (IsOfRounds (new_session id r s []) ps)
          (finish h mqtt_parser (stream_rounds h mqtt_parser (new_session id r s []) ps)).net
  unfolding new_session
  left_lem id r s ps quiet =
      subst (All (IsOfRounds (new_session id r s []) ps))
        (sym (finish-net (stream_rounds h mqtt_parser (new_session id r s []) ps)))
        (rounds_lem (IsOfRounds (new_session id r s []) ps) quiet (new_session id r s []) ps
          (λ t is. is) tt)

  -- Over WebSocket as well, a backend is sent nothing that was not approved. If a request is upgraded
  -- and its backend dialled, then in any rounds of the session's two streams, with MQTT as the protocol
  -- under it, each packet written to the backend was written by a round of the upstream. That round
  -- read a packet from the client, and the packet's authorising hook, called with the handler's state
  -- and the session's context as they were at that round, did not refuse it; what was written is the
  -- packet as the hook has changed it. This is for a handler whose notifications do not write into the
  -- slices they are given.
  pub serve_http-approved :
      {U : Type 0} (o : Outside U) (url id : String) (r : Request) (s : S)
      (rounds : List (Direction × R)) (x : Session S (Sent F))
      → IsQuiet h
      → serve_http h mqtt_parser o url id r s [] rounds ≡ session x
      → All (IsOfRounds (new_session id r s []) rounds) x.net
  unfolding serve_http
  serve_http-approved o url id r s rounds x quiet served =
      subst (λ y. All (IsOfRounds (new_session id r s []) rounds) y.net)
        (upgraded_lem h mqtt_parser o (upgrade o r) url id r s [] rounds x served)
        (left_lem id r s rounds quiet)
