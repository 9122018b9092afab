-- ===== src/Program.antt =====
-- cmd/main.go and config.go: the proxies that the program starts. The environment, the files and
-- net/url are parameters.
use mproxy.Prelude.{String, Option, none, some, List, [], ◌∷◌, str_eq, if◌then◌else◌}
use mproxy.Prelude.Int.{ℤ, pos}
use mproxy.Prelude.Maps.{Dict, lookup}
use mproxy.Errors.{Err, other, wrapped, ◌^^◌}
use mproxy.Errors.Results.{Result, ok, fail, panic, or_fail, ◌>>=◌}
use mproxy.Tls.Setup.{
  Kind, tls, dtls, no_client_cert, ServerConfig, Files, Environment, load_tls_config,
}
use mproxy.Tls.Setup as Setup
use mproxy.Proxy.{MqttConfig, CoapConfig, WebConfig}

-- The fields of `Config` that `env` reads.
pub record Plain : Type 0 where
  pub host : String
  pub port : String
  pub path_prefix : String
  pub target_host : String
  pub target_port : String
  pub target_protocol : String
  pub target_path : String

abbrev pub mqtt_without_tls : String
mqtt_without_tls = "MPROXY_MQTT_WITHOUT_TLS_"

abbrev pub mqtt_with_tls : String
mqtt_with_tls = "MPROXY_MQTT_WITH_TLS_"

abbrev pub mqtt_with_mtls : String
mqtt_with_mtls = "MPROXY_MQTT_WITH_MTLS_"

abbrev pub mqtt_ws_without_tls : String
mqtt_ws_without_tls = "MPROXY_MQTT_WS_WITHOUT_TLS_"

abbrev pub mqtt_ws_with_tls : String
mqtt_ws_with_tls = "MPROXY_MQTT_WS_WITH_TLS_"

abbrev pub mqtt_ws_with_mtls : String
mqtt_ws_with_mtls = "MPROXY_MQTT_WS_WITH_MTLS_"

abbrev pub http_without_tls : String
http_without_tls = "MPROXY_HTTP_WITHOUT_TLS_"

abbrev pub http_with_tls : String
http_with_tls = "MPROXY_HTTP_WITH_TLS_"

abbrev pub http_with_mtls : String
http_with_mtls = "MPROXY_HTTP_WITH_MTLS_"

abbrev pub coap_without_dtls : String
coap_without_dtls = "MPROXY_COAP_WITHOUT_DTLS_"

abbrev pub coap_with_dtls : String
coap_with_dtls = "MPROXY_COAP_WITH_DTLS_"

-- The switches over the prefix.
abbrev pub mqtt_ports : Dict String
mqtt_ports = (mqtt_without_tls, "1884") ∷ (mqtt_with_tls, "8883") ∷ (mqtt_with_mtls, "8884") ∷ []

abbrev pub ws_ports : Dict String
ws_ports =
    (mqtt_ws_without_tls, "8083") ∷ (mqtt_ws_with_tls, "8084") ∷ (mqtt_ws_with_mtls, "8085") ∷ []

abbrev pub http_ports : Dict String
http_ports = (http_without_tls, "8086") ∷ (http_with_tls, "8087") ∷ (http_with_mtls, "8088") ∷ []

abbrev pub coap_ports : Dict String
coap_ports = (coap_without_dtls, "5682") ∷ (coap_with_dtls, "5684") ∷ []

abbrev pub or_default : String → String → String
or_default text default = if str_eq text "" then default else text

unfoldable pub choose_port : Dict String → String → String → Result String
choose_port ports prefix port =
    if str_eq port "" then or_fail (lookup prefix ports) (other "port not configured") else ok port

abbrev pub seconds_30 : ℤ
seconds_30 = pos 30000000000

module _ (KeyPair Pool : Type 0) where
  pub record Config : Type 0 where
    pub plain : Plain
    pub tls_config : Option (ServerConfig KeyPair Pool)
    pub dtls_config : Option (ServerConfig KeyPair Pool)

  -- A proxy that listens, with the TLS configuration it is given.
  pub data Launch : Type 0 where
    mqtt_proxy : MqttConfig → Option (ServerConfig KeyPair Pool) → Launch
    web_socket_proxy : WebConfig → Option (ServerConfig KeyPair Pool) → Launch
    http_proxy : WebConfig → Option (ServerConfig KeyPair Pool) → Launch
    coap_proxy : CoapConfig → Launch

  -- What is read with a prefix, and what net/url says of a target's URL.
  pub record Surroundings : Type 0 where
    pub read_plain : String → Result Plain
    pub read_tls : String → Environment
    pub files : Files KeyPair Pool
    pub url_error : String → Option Err

module _ {KeyPair Pool : Type 0} (o : Surroundings KeyPair Pool) where
  abbrev pub blank : Kind → ServerConfig KeyPair Pool
  blank kind = record {
    kind = kind;
    certificates = [];
    root_cas = none;
    client_cas = none;
    client_auth = no_client_cert;
    verify_peer_certificate = none;
  }

  unfoldable pub new_config : String → Result (Config KeyPair Pool)
  new_config prefix = do
    plain ← o.read_plain prefix
    cfg ← Setup.new_config (o.read_tls prefix)
    tls_config ← load_tls_config o.files cfg (blank tls)
    dtls_config ← load_tls_config o.files cfg (blank dtls)
    ok (record { plain = plain; tls_config = tls_config; dtls_config = dtls_config })

  unfoldable pub start_mqtt_proxy : String → Result (Launch KeyPair Pool)
  start_mqtt_proxy prefix = do
    cfg ← new_config prefix
    port ← choose_port mqtt_ports prefix cfg.plain.port
    ok (
        mqtt_proxy
          (record {
            host = cfg.plain.host;
            port = port;
            target_host = or_default cfg.plain.target_host "localhost";
            target_port = or_default cfg.plain.target_port "1883";
            shutdown_timeout = seconds_30;
          })
          cfg.tls_config)

  unfoldable pub start_web_socket_proxy : String → Result (Launch KeyPair Pool)
  start_web_socket_proxy prefix = do
    cfg ← new_config prefix
    port ← choose_port ws_ports prefix cfg.plain.port
    ok (
        web_socket_proxy
          (record {
            host = cfg.plain.host;
            port = port;
            target_url =
                or_default cfg.plain.target_protocol "ws"
                ^^ "://"
                ^^ or_default cfg.plain.target_host "localhost"
                ^^ ":"
                ^^ or_default cfg.plain.target_port "8000"
                ^^ cfg.plain.target_path;
            shutdown_timeout = seconds_30;
          })
          cfg.tls_config)

  -- `NewHTTP`, which parses the target's URL.
  unfoldable pub new_http :
      Option Err → WebConfig → Option (ServerConfig KeyPair Pool) → Result (Launch KeyPair Pool)
  new_http none cfg tls_config = ok (http_proxy cfg tls_config)
  new_http (some e) cfg tls_config =
      fail (wrapped "failed to create HTTP parser" (wrapped "failed to parse target URL" e))

  unfoldable pub start_http_proxy : String → Result (Launch KeyPair Pool)
  start_http_proxy prefix = do
    cfg ← new_config prefix
    port ← choose_port http_ports prefix cfg.plain.port
    let target_url =
        or_default cfg.plain.target_protocol "http"
        ^^ "://"
        ^^ or_default cfg.plain.target_host "localhost"
        ^^ ":"
        ^^ or_default cfg.plain.target_port "8888"
    new_http (o.url_error target_url)
        (record {
          host = cfg.plain.host;
          port = port;
          target_url = target_url;
          shutdown_timeout = seconds_30;
        })
        cfg.tls_config

  unfoldable pub start_coap_proxy : String → Result (Launch KeyPair Pool)
  start_coap_proxy prefix = do
    cfg ← new_config prefix
    port ← choose_port coap_ports prefix cfg.plain.port
    ok (
        coap_proxy (record {
          host = cfg.plain.host;
          port = port;
          target_host = or_default cfg.plain.target_host "localhost";
          target_port = or_default cfg.plain.target_port "5683";
          session_timeout = seconds_30;
          shutdown_timeout = seconds_30;
        }))

  -- A proxy that does not start is a warning in the log; a panic ends the program.
  abbrev pub also :
      Result (Launch KeyPair Pool)
      → Result (List (Launch KeyPair Pool))
      → Result (List (Launch KeyPair Pool))
  also (ok l) rest = rest >>= λ ls. ok (l ∷ ls)
  also (fail e) rest = rest
  also panic rest = panic

  -- The proxies that `main` starts, in its order.
  unfoldable pub main : Result (List (Launch KeyPair Pool))
  main = also (start_mqtt_proxy mqtt_without_tls) (
      also (start_mqtt_proxy mqtt_with_tls) (
        also (start_mqtt_proxy mqtt_with_mtls) (
          also (start_web_socket_proxy mqtt_ws_without_tls) (
            also (start_web_socket_proxy mqtt_ws_with_tls) (
              also (start_web_socket_proxy mqtt_ws_with_mtls) (
                also (start_http_proxy http_without_tls) (
                  also (start_http_proxy http_with_tls) (
                    also (start_http_proxy http_with_mtls) (
                      also (start_coap_proxy coap_without_dtls)
                        (also (start_coap_proxy coap_with_dtls) (ok [])))))))))))
