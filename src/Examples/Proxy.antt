-- ===== src/Examples/Proxy.antt =====
-- pkg/proxy and pkg/parser/websocket/parser.go at concrete inputs.
use mproxy.Prelude.{
  ℕ, ◌≡◌, refl, List, [], ◌∷◌, Option, some, none, All, String, str_eq, map, ◌↔◌, true,
  if◌then◌else◌,
}
use mproxy.Prelude.Int.{pos}
use mproxy.Errors.{Err, other, ◌^^◌}
use mproxy.Errors.Results.{ok}
use mproxy.Parser.{upstream, downstream, Direction}
use mproxy.Parser.{Parser}
use mproxy.Parser.Mqtt.{Packet, publish, parse}
use mproxy.Parser.WebSocket.LikeTcp.{as_tcp, as_event, session_parser, session-like_tcp}
use mproxy.Tcp.Server as TcpServer
use mproxy.Parser.WebSocket.{
  Request, Outside, Session, session, not_upgraded, new_session, stream_rounds, finish, serve_http,
  upgrade, check_origin, serve_upgraded, build_target_url, serve_target, serve_dialed,
  origin_not_allowed,
}
use mproxy.Tcp.Connection.{Target, dialed, deadlines_set}
use mproxy.Tcp.Server.{Event, accepts, starts, rounds}
use mproxy.Proxy.{MqttConfig, new_mqtt, serve_mqtt}
use mproxy.Proxy.Approval.{Sent, send, IsCaused, serve_mqtt-approved}
use mproxy.Proxy.WebSocket.{mqtt_parser, IsOfRounds, serve_http-approved}
use mproxy.Examples.Mqtt.{guarded, take_packet, note, guarded-IsQuiet}

abbrev config : MqttConfig
config = record {
  host = "";
  port = "1884";
  target_host = "broker";
  target_port = "1883";
  shutdown_timeout = pos 0;
}

-- A client publishes to a topic, and to one that is refused.
abbrev events : List (Event (List (Packet ℕ)))
events =
    accepts "a:1" "s1" none
    ∷ starts 0 (dialed none)
    ∷ rounds 0 upstream deadlines_set (publish (note "temperature") ∷ [])
    ∷ rounds 0 upstream deadlines_set (publish (note "secret") ∷ [])
    ∷ []

abbrev pub working : Target → Packet ℕ → Option Err
working t p = none

serve_mqtt-approved_example :
    All
      (IsCaused guarded take_packet working (new_mqtt config 0 []) events)
      (serve_mqtt guarded take_packet (send working) (new_mqtt config 0 []) events).net
serve_mqtt-approved_example =
    serve_mqtt-approved guarded take_packet working config 0 events guarded-IsQuiet

-- The request of a browser that shows a page of the proxy's own host.
abbrev request : Request
request = record {
  origin = "https://proxy";
  host = "proxy";
  remote_addr = "a:1";
  path = "/mqtt";
  raw_query = "";
}

abbrev outside : Outside String
outside = record {
  upgrade = λ r. none;
  parse_url = λ text. ok (record { base = text; path = ""; raw_query = "" });
  url_text = λ u. u.base ^^ u.path;
  dial = λ url. if str_eq url "ws://broker/mqtt" then none else some (other "refused");
}

-- The client publishes, and both ends close.
abbrev web_rounds : List (Direction × List (Packet ℕ))
web_rounds =
    (upstream, publish (note "temperature") ∷ [])
    ∷ (upstream, publish (note "secret") ∷ [])
    ∷ (downstream, [])
    ∷ []

abbrev web_session : Session ℕ (Sent ℕ)
web_session = finish guarded (mqtt_parser guarded take_packet working) (
    stream_rounds guarded (mqtt_parser guarded take_packet working) (new_session "s1" request 0 [])
      web_rounds)

dialed_session :
    serve_http guarded
      (mqtt_parser guarded take_packet working)
      outside
      "ws://broker"
      "s1"
      request
      0
      []
      web_rounds
    ≡ session web_session
unfolding serve_http upgrade check_origin serve_upgraded build_target_url serve_target serve_dialed
dialed_session = refl

serve_http-approved_example :
    All
      (IsOfRounds guarded take_packet working (new_session "s1" request 0 []) web_rounds)
      web_session.net
serve_http-approved_example =
    serve_http-approved guarded take_packet working outside "ws://broker" "s1" request 0 web_rounds
      web_session guarded-IsQuiet dialed_session

other_origin :
    serve_http guarded
      (mqtt_parser guarded take_packet working)
      outside
      "ws://broker"
      "s1"
      (record request { origin = "https://elsewhere" })
      0
      []
      web_rounds
    ≡ not_upgraded origin_not_allowed
unfolding serve_http upgrade check_origin serve_upgraded
other_origin = refl

-- The same session as the one connection of a TCP server.
abbrev web_parser : Target → Parser ℕ (List (Packet ℕ)) (Sent ℕ)
web_parser t = parse guarded take_packet (send working t)

session-like_tcp_example :
    let x : Session ℕ (Sent ℕ) = new_session "s1" request 0 [] in
    let sv : TcpServer.Server ℕ (Sent ℕ) = new_mqtt config 0 [] in
    let server =
      TcpServer.finish guarded web_parser
        (TcpServer.run guarded web_parser (as_tcp sv none x) (map as_event web_rounds))
        0 in
    let left =
      finish guarded
        (session_parser guarded web_parser sv)
        (stream_rounds guarded (session_parser guarded web_parser sv) x web_rounds) in
    (server.state ≡ left.state) × (server.net ≡ left.net) × (server.conns ≡ [] ↔ left.closed ≡ true)
unfolding new_session new_mqtt TcpServer.new
session-like_tcp_example =
    session-like_tcp guarded web_parser (new_mqtt config 0 []) (new_session "s1" request 0 [])
      web_rounds refl refl
