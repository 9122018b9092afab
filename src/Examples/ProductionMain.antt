-- ===== src/Examples/ProductionMain.antt =====
-- cmd/production/main.go at concrete inputs: a limit of one connection, and two clients.
use mproxy.Prelude.{
  ◌≡◌, refl, String, List, [], ◌∷◌, Option, some, none, length, str_eq, if◌then◌else◌,
}
use mproxy.Prelude.Int.{ℤ, pos}
use mproxy.Errors.Results.{ok, panic}
use mproxy.Proxy.{MqttConfig, new_mqtt, serve_mqtt}
use mproxy.Proxy.Approval.{send}
use mproxy.Production.Main.{
  Config, new_state, production_handler, mqtt_config, listen_port, target_of,
}
use mproxy.Production.Main.Unlimited.{all_connect, production-unlimited}
use mproxy.Examples.Mqtt.{guarded, take_packet}
use mproxy.Examples.Proxy.{working}

abbrev config : Config
config = record {
  max_connections = pos 1;
  max_goroutines = pos 50000;
  pool_max_idle = pos 100;
  pool_max_active = pos 1000;
  pool_idle_timeout = pos 300000000000;
  breaker_max_failures = pos 5;
  breaker_reset_timeout = pos 60000000000;
  breaker_timeout = pos 30000000000;
  rate_limit_capacity = pos 100;
  rate_limit_refill = pos 10;
  global_rate_capacity = pos 10000;
  global_rate_refill = pos 1000;
  read_timeout = pos 60000000000;
  write_timeout = pos 60000000000;
  shutdown_timeout = pos 30000000000;
  mqtt_address = ":1884";
  mqtt_target = "broker:1883";
}

abbrev split : String → Option (String × String)
split text =
    if str_eq text ":1884"
    then some ("", "1884")
    else (if str_eq text "broker:1883" then some ("broker", "1883") else none)

abbrev proxy_config : MqttConfig
proxy_config = record {
  host = "";
  port = "1884";
  target_host = "broker";
  target_port = "1883";
  shutdown_timeout = pos 30000000000;
}

configured : mqtt_config split config ≡ ok proxy_config
unfolding mqtt_config listen_port target_of
configured = refl

no_address : mqtt_config split (record config { mqtt_address = "" }) ≡ panic
unfolding mqtt_config
no_address = refl

-- What the refill adds stays out of account.
abbrev nothing_added : ℤ → ℤ → ℤ
nothing_added elapsed rate = pos 0

abbrev clients : List (String × String)
clients = ("a:1", "s1") ∷ ("b:1", "s2") ∷ []

production-unlimited_example :
    let sv =
      serve_mqtt
        (production_handler nothing_added guarded)
        take_packet
        (send working)
        (new_mqtt proxy_config (new_state config 0 (0, 0, 0) 0) [])
        (all_connect clients) in
    (length sv.conns ≡ 2) × (sv.rejected ≡ 0)
production-unlimited_example =
    production-unlimited nothing_added guarded take_packet (send working) split config proxy_config
      0 (0, 0, 0) 0 [] clients configured
