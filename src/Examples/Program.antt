-- ===== src/Examples/Program.antt =====
-- cmd/main.go at concrete inputs: an environment that configures two proxies.
use mproxy.Prelude.{◌≡◌, refl, String, [], ◌∷◌, none, str_eq, if◌then◌else◌}
use mproxy.Prelude.Maps.{lookup}
use mproxy.Errors.{other}
use mproxy.Errors.Results.{ok, fail}
use mproxy.Handler.{Bytes}
use mproxy.Tls.Setup.{Files, Environment, load_tls_config}
use mproxy.Tls.Setup as Setup
use mproxy.Proxy.{stopped, listen_web}
use mproxy.Errors.{sentinel}
use mproxy.Program.{
  Plain, mqtt_with_tls, coap_with_dtls, Surroundings, mqtt_proxy, coap_proxy, main, new_config,
  start_mqtt_proxy, start_web_socket_proxy, start_http_proxy, start_coap_proxy, choose_port,
  seconds_30,
}
use mproxy.Examples.Tls.{disk}

-- The broker's host is configured for both, and a port for MQTT.
abbrev plain : String → Plain
plain port = record {
  host = "";
  port = port;
  path_prefix = "/mqtt";
  target_host = "broker";
  target_port = "";
  target_protocol = "";
  target_path = "";
}

abbrev no_tls : Environment
no_tls = record {
  files = ok (record {
    cert_file = "";
    key_file = "";
    server_ca_file = "";
    client_ca_file = "";
    validator = none;
  });
  methods = [];
  new_ocsp = fail (other "unused");
  new_crl = fail (other "unused");
}

abbrev world : Surroundings String Bytes
world = record {
  read_plain = λ prefix.
      if str_eq prefix mqtt_with_tls
      then ok (plain "9000")
      else (if str_eq prefix coap_with_dtls then ok (plain "") else fail (other "not set"));
  read_tls = λ prefix. no_tls;
  files = disk;
  url_error = λ text. none;
}

two_proxies :
    main world
    ≡ ok (
        mqtt_proxy
          (record {
            host = "";
            port = "9000";
            target_host = "broker";
            target_port = "1883";
            shutdown_timeout = seconds_30;
          })
          none
        ∷ coap_proxy (record {
          host = "";
          port = "5684";
          target_host = "broker";
          target_port = "5683";
          session_timeout = seconds_30;
          shutdown_timeout = seconds_30;
        })
        ∷ [])
unfolding main new_config Setup.new_config Setup.new_verifiers Setup.make_verifiers load_tls_config
    start_mqtt_proxy start_web_socket_proxy start_http_proxy start_coap_proxy choose_port lookup
two_proxies = refl

server_closed : listen_web (stopped (sentinel "http" "http: Server closed")) ≡ none
unfolding listen_web
server_closed = refl
