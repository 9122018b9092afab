-- ===== src/Production/Main/Unlimited.antt =====
-- cmd/production/main.go: the limits that do not reach the proxy.
use mproxy.Prelude.{
  ℕ, suc, ◌+◌, ◌≡◌, refl, ◌∙◌, String, false, Option, none, List, [], ◌∷◌, length, length-append,
  arith,
}
use mproxy.Prelude.Int.{ℤ}
use mproxy.Errors.{Err}
use mproxy.Errors.Results.{ok}
use mproxy.Handler.{Handler}
use mproxy.Parser.{Parser}
use mproxy.Parser.Mqtt.{Read, Packet, parse}
use mproxy.Tcp.Connection.{Target, fresh_connection}
use mproxy.Tcp.Server.{Server, Event, accepts, accept, admit, take_slot, step, run, is_limited}
use mproxy.Tcp.Server as TcpServer
use mproxy.Production.Main.{Config, new_state, production_handler, mqtt_config}
use mproxy.Proxy.{MqttConfig, mqtt_server_config, new_mqtt, serve_mqtt}

-- Clients that connect, each with its address and the id of its session.
abbrev pub all_connect : {R : Type 0} → List (String × String) → List (Event R)
all_connect [] = []
all_connect (p ∷ ps) = accepts (p.0) (p.1) none ∷ all_connect ps

module _ {S W : Type 0} where
  accept-unlimited :
      (sv : Server S W) (remote_addr id : String)
      → is_limited sv.config ≡ false
      → sv.stopping ≡ false
      → let sv' = accept sv remote_addr id none in
        (length sv'.conns ≡ suc (length sv.conns))
        × (sv'.rejected ≡ sv.rejected)
        × (is_limited sv'.config ≡ false)
        × (sv'.stopping ≡ false)
  unfolding accept admit
  accept-unlimited sv remote_addr id unlimited running = ground (
    arith,
    unlimited,
    running,
    length-append sv.conns (fresh_connection sv.next_id remote_addr id ∷ []),
  )

  run-unlimited :
      {R : Type 0} (h : Handler S) (parser : Target → Parser S R W) (sv : Server S W)
      (clients : List (String × String))
      → is_limited sv.config ≡ false
      → sv.stopping ≡ false
      → let sv' = run h parser sv (all_connect clients) in
        (length sv'.conns ≡ length clients + length sv.conns) × (sv'.rejected ≡ sv.rejected)
  unfolding run step
  run-unlimited h parser sv [] unlimited running = (omega arith, refl)
  run-unlimited h parser sv (p ∷ ps) unlimited running =
      let (more, kept, unlimited', running') = accept-unlimited sv (p.0) (p.1) unlimited running in
      let rest = run-unlimited h parser (accept sv (p.0) (p.1) none) ps unlimited' running' in
      (omega (arith, more, rest.0), rest.1 ∙ kept)

-- The production program's proxy has no limit on its connections. Whatever `MAX_CONNECTIONS` and the
-- rest of a configuration that gives a proxy are, all of any number of clients that connect are
-- admitted and none is turned away.
pub production-unlimited :
    {S W F R : Type 0} (added : ℤ → ℤ → ℤ) (base : Handler S) (read : R → Read F × R)
    (send : Target → W → Packet F → W × Option Err) (split : String → Option (String × String))
    (cfg : Config) (m : MqttConfig) (now : ℕ) (instants : ℕ × ℕ × ℕ) (s : S) (w : W)
    (clients : List (String × String))
    → mqtt_config split cfg ≡ ok m
    → let sv =
        serve_mqtt
          (production_handler added base)
          read
          send
          (new_mqtt m (new_state cfg now instants s) w)
          (all_connect clients) in
      (length sv.conns ≡ length clients) × (sv.rejected ≡ 0)
unfolding serve_mqtt new_mqtt mqtt_server_config TcpServer.new TcpServer.with_defaults is_limited
production-unlimited added base read send split cfg m now instants s w clients given =
    let counted =
      run-unlimited (production_handler added base)
        (λ t. parse (production_handler added base) read (send t))
        (new_mqtt m (new_state cfg now instants s) w) clients refl refl in
    (omega (arith, counted.0), counted.1)
