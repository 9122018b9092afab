-- ===== src/Examples/ProxyCoap.antt =====
-- pkg/proxy/coap.go at concrete inputs: three datagrams of a client, one to a refused path and one
-- that is no message.
use mproxy.Prelude.{List, [], ◌∷◌, Option, none, All, false}
use mproxy.Prelude.Int.{pos}
use mproxy.Errors.{Err}
use mproxy.Handler.{Bytes}
use mproxy.Udp.Session.{dialed}
use mproxy.Udp.Server.{Target, Event, arrives, works, serves, run}
use mproxy.Proxy.{CoapConfig, new_coap}
use mproxy.Proxy.Coap.{IsCaused, coap_parser, new_coap-allowed}
use mproxy.Examples.Coap.{keyed, decode}
use mproxy.Examples.Udp.{heap}

abbrev config : CoapConfig
config = record {
  host = "";
  port = "5682";
  target_host = "backend";
  target_port = "5683";
  session_timeout = pos 0;
  shutdown_timeout = pos 0;
}

abbrev sends : Bytes → Event
sends raw = arrives (record { client_addr = "a:1"; datagram = raw })

abbrev working : Target → Bytes → Option Err
working t raw = none

abbrev events : List Event
events =
    sends (1 ∷ 9 ∷ [])
    ∷ sends (0 ∷ 9 ∷ [])
    ∷ sends []
    ∷ works (dialed 7) "s1" 100 false
    ∷ works (dialed 8) "s2" 101 false
    ∷ serves 1
    ∷ serves 0
    ∷ works (dialed 9) "s3" 102 false
    ∷ serves 0
    ∷ []

new_coap-allowed_example :
    All
      (IsCaused keyed decode working (new_coap config heap 0 []) events)
      (run keyed (coap_parser keyed decode working) (new_coap config heap 0 []) events).net
new_coap-allowed_example = new_coap-allowed keyed decode working config heap 0 events
