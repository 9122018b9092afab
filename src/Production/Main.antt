-- ===== src/Production/Main.antt =====
-- cmd/production/main.go: what the program makes of its configuration. The servers for metrics and
-- health, the logger and the signals are left out; `net.SplitHostPort` is a parameter.
pub mod Unlimited
use Prim.Native.String.{slice, len}
use mproxy.Prelude.{ℕ, String, Option, none, some, List, [], str_eq, if◌then◌else◌}
use mproxy.Prelude.Int.{ℤ, pos}
use mproxy.Errors.Results.{Result, ok, panic}
use mproxy.Handler.{Handler}
use mproxy.RateLimit.{TokenBucket, Limiter, new_limiter, new_token_bucket}
use mproxy.Production.{Limited, Counted, rate_limited, instrumented}
use mproxy.Proxy.{MqttConfig}

pub record Config : Type 0 where
  pub max_connections : ℤ
  pub max_goroutines : ℤ
  pub pool_max_idle : ℤ
  pub pool_max_active : ℤ
  pub pool_idle_timeout : ℤ
  pub breaker_max_failures : ℤ
  pub breaker_reset_timeout : ℤ
  pub breaker_timeout : ℤ
  pub rate_limit_capacity : ℤ
  pub rate_limit_refill : ℤ
  pub global_rate_capacity : ℤ
  pub global_rate_refill : ℤ
  pub read_timeout : ℤ
  pub write_timeout : ℤ
  pub shutdown_timeout : ℤ
  pub mqtt_address : String
  pub mqtt_target : String

-- The two limiters, made at `now`; `instants` are the clock's readings that the next call will see.
unfoldable pub new_state : {S : Type 0} → Config → ℕ → ℕ × ℕ × ℕ → S → Counted (Limited S)
new_state cfg now instants s = record {
  inner = record {
    inner = s;
    per_client = new_limiter cfg.rate_limit_capacity cfg.rate_limit_refill (pos 10000);
    global = new_token_bucket cfg.global_rate_capacity cfg.global_rate_refill now;
    instants = instants;
    limited = [];
  };
  log = [];
}

-- The handler that the proxy is given: it counts what the limiting one answers.
unfoldable pub production_handler :
    {S : Type 0} → (ℤ → ℤ → ℤ) → Handler S → Handler (Counted (Limited S))
production_handler added base = instrumented (rate_limited added base)

abbrev pub after_first : String → String
after_first text = slice text 1 (len text)

unfoldable pub listen_port : Option (String × String) → String → String
listen_port (some (host, port)) address = port
listen_port none address = after_first address

unfoldable pub target_of : Option (String × String) → String × String
target_of (some place) = place
target_of none = ("localhost", "1883")

-- The address is cut after its first byte before anything else, which panics for an empty one.
unfoldable pub mqtt_config : (String → Option (String × String)) → Config → Result MqttConfig
mqtt_config split cfg =
    let place =
      if str_eq cfg.mqtt_target "" then target_of none else target_of (split cfg.mqtt_target) in
    if str_eq cfg.mqtt_address ""
    then panic
    else ok (record {
      host = "";
      port = listen_port (split cfg.mqtt_address) cfg.mqtt_address;
      target_host = place.0;
      target_port = place.1;
      shutdown_timeout = cfg.shutdown_timeout;
    })
