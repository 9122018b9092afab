-- ===== src/Proxy.antt =====
-- pkg/proxy/mqtt.go and pkg/proxy/coap.go: a server, a parser and a handler put together.
pub mod Approval
pub mod WebSocket
pub mod Coap
use mproxy.Prelude.{ℕ, String, Option, none, some, List, Bool, false, ◌&&◌, str_eq, if◌then◌else◌}
use mproxy.Prelude.Int.{ℤ, pos}
use mproxy.Errors.{Err, sentinel, ◌^^◌}
use mproxy.Handler.{Handler}
use mproxy.Parser.{Parser}
use mproxy.Parser.Mqtt as MqttParser
use mproxy.Parser.Coap as CoapParser
use mproxy.Tcp.Connection.{Target}
use mproxy.Tcp.Server as TcpServer
use mproxy.Udp.Session.{Session}
use mproxy.Udp.Server as UdpServer

-- `MQTTConfig`, less TLS and the logger.
pub record MqttConfig : Type 0 where
  pub host : String
  pub port : String
  pub target_host : String
  pub target_port : String
  pub shutdown_timeout : ℤ

-- `CoAPConfig`, less the logger.
pub record CoapConfig : Type 0 where
  pub host : String
  pub port : String
  pub target_host : String
  pub target_port : String
  pub session_timeout : ℤ
  pub shutdown_timeout : ℤ

-- Fields that are not set are 0.
unfoldable pub mqtt_server_config : MqttConfig → TcpServer.Config
mqtt_server_config cfg = record {
  target_address = cfg.target_host ^^ ":" ^^ cfg.target_port;
  shutdown_timeout = cfg.shutdown_timeout;
  max_connections = pos 0;
  read_timeout = pos 0;
  write_timeout = pos 0;
}

unfoldable pub coap_server_config : CoapConfig → UdpServer.Config
coap_server_config cfg = record {
  target_address = cfg.target_host ^^ ":" ^^ cfg.target_port;
  session_timeout = cfg.session_timeout;
  shutdown_timeout = cfg.shutdown_timeout;
  max_sessions = pos 0;
  buffer_size = pos 0;
  worker_pool_size = pos 0;
}

-- `NewMQTT`: the server before it listens.
unfoldable pub new_mqtt : {S W : Type 0} → MqttConfig → S → W → TcpServer.Server S W
new_mqtt cfg s w = TcpServer.new (mqtt_server_config cfg) s w

-- `NewCoAP`, over what the heap of sessions holds.
unfoldable pub new_coap : {S W : Type 0} → CoapConfig → (ℕ → Session) → S → W → UdpServer.Server S W
new_coap cfg heap s w = UdpServer.new (coap_server_config cfg) heap s w

-- What the server does with its parser and handler: `read` reads packets, and `send` writes one to a
-- connection. A step is one of the server's events.
unfoldable pub serve_mqtt :
    {S W F R : Type 0}
    → Handler S
    → (R → MqttParser.Read F × R)
    → (Target → W → MqttParser.Packet F → W × Option Err)
    → TcpServer.Server S W
    → List (TcpServer.Event R)
    → TcpServer.Server S W
serve_mqtt h read send sv events = TcpServer.run h (λ t. MqttParser.parse h read (send t)) sv events

-- `HTTPConfig` and `WebSocketConfig`, less TLS, the parser under it and the logger.
pub record WebConfig : Type 0 where
  pub host : String
  pub port : String
  pub target_url : String
  pub shutdown_timeout : ℤ

-- What `Listen` of both waits for: a shutdown, with the error of `Shutdown`, or the server's end.
pub data WebEnd : Type 0 where
  shut_down : Option Err → WebEnd
  stopped : Err → WebEnd

-- The error is `http.ErrServerClosed` itself.
abbrev pub is_server_closed : Err → Bool
is_server_closed (sentinel owner text) = str_eq owner "http" && str_eq text "http: Server closed"
is_server_closed _ = false

-- `Listen`.
unfoldable pub listen_web : WebEnd → Option Err
listen_web (shut_down e) = e
listen_web (stopped e) = if is_server_closed e then none else some e
