-- ===== src/Production/Gauge.antt =====
-- cmd/production/handlers.go: the gauge of active connections of the sessions of pkg/server/udp.
use mproxy.Prelude.{
  ℕ, suc, ◌+◌, String, Option, List, [], ◌∷◌, ◌≡◌, refl, arith, if◌then◌else◌, str_eq,
}
use mproxy.Errors.{Err}
use mproxy.Handler.{Bytes, Context, Handler}
use mproxy.Parser.{Direction, upstream, downstream}
use mproxy.Parser.Coap.{
  Code, post, put, get, other_code, Message, Read, datagram, failed, Decoded, message, undecoded,
  handle_code, extract_auth, set_auth, handle_upstream, handle_decoded, handle_read, parse,
}
use mproxy.Udp.Session.{SessionManager, force_close_all}
use mproxy.Udp.Session.Limits.{IsSound}
use mproxy.Udp.Session.Entries.{notify_all, contexts}
use mproxy.Udp.Session.Expiry.{force_close_all_lem}
use mproxy.Production.{Counted, Observation, active_up, active_down, instrumented}

-- How often the gauge of one protocol has gone up, and how often down. Its value is the difference.
unfoldable pub ups : String → List Observation → ℕ
ups protocol [] = 0
ups protocol (active_up p ∷ log) =
    let rest = ups protocol log in if str_eq p protocol then suc rest else rest
ups protocol (_ ∷ log) = ups protocol log

unfoldable pub downs : String → List Observation → ℕ
downs protocol [] = 0
downs protocol (active_down p ∷ log) =
    let rest = downs protocol log in if str_eq p protocol then suc rest else rest
downs protocol (_ ∷ log) = downs protocol log

-- How many of the contexts are of a protocol.
unfoldable pub of_protocol : String → List Context → ℕ
of_protocol protocol [] = 0
of_protocol protocol (c ∷ cs) =
    let rest = of_protocol protocol cs in if str_eq c.protocol protocol then suc rest else rest

module _ {S : Type 0} (h : Handler S) (protocol : String) where
  -- The log with the gauge gone down this often, and never up.
  abbrev pub Fallen : ℕ → List Observation → List Observation → Type 0
  Fallen n log log' =
      (ups protocol log' ≡ ups protocol log) × (downs protocol log' ≡ n + downs protocol log)

  notify_all-active :
      (s : Counted S) (cs : List Context)
      → Fallen (of_protocol protocol cs) s.log (notify_all (instrumented h) s cs).log
  unfolding notify_all instrumented ups downs of_protocol
  notify_all-active s [] = ground arith
  notify_all-active s (c ∷ cs) =
      ground (arith, notify_all-active ((instrumented h).on_disconnect s c).0 cs)

  -- A forced shutdown of the UDP sessions takes one off the gauge of active connections for each
  -- session of the protocol, and adds nothing.
  force_close_all-active :
      (sm : SessionManager) (s : Counted S)
      → IsSound sm
      → Fallen
          (of_protocol protocol (contexts sm.heap sm.sessions))
          s.log
          (force_close_all (instrumented h) sm s).1.log
  force_close_all-active sm s v =
      rw ((force_close_all_lem (instrumented h) sm s v).2)
        (notify_all-active s (contexts sm.heap sm.sessions))

  code-active :
      (k : Code) (msg : Message) (s : Counted S) (c : Context)
      → Fallen 0 s.log (handle_code (instrumented h) k msg s c).state.log
  unfolding handle_code instrumented ups downs
  code-active post msg s c = ground arith
  code-active put msg s c = ground arith
  code-active get msg s c = ground arith
  code-active (other_code n) msg s c = ground arith

  upstream-active :
      (msg : Message) (s : Counted S) (c : Context)
      → Fallen 0 s.log (handle_upstream (instrumented h) msg s c).state.log
  unfolding handle_upstream instrumented ups downs
  upstream-active msg s c = ground (
    arith,
    code-active msg.code msg
        ((instrumented h).auth_connect s (set_auth (extract_auth msg.queries) c)).0
        ((instrumented h).auth_connect s (set_auth (extract_auth msg.queries) c)).1,
  )

  module _ {R W : Type 0} (read_all : R → Read × R) (decode : Bytes → Decoded)
      (write : W → Bytes → W × Option Err) where
    decoded-active :
        (d : Decoded) (raw : Bytes) (r : R) (dir : Direction) (s : Counted S) (c : Context) (w : W)
        → Fallen 0 s.log
            (handle_decoded (instrumented h) read_all decode write d raw r dir s c w).state.log
    unfolding handle_decoded
    decoded-active (undecoded e) raw r dir s c w = (refl, omega arith)
    decoded-active (message msg) raw r upstream s c w = ground (arith, upstream-active msg s c)
    decoded-active (message msg) raw r downstream s c w = ground arith

    read-active :
        (got : Read) (r : R) (dir : Direction) (s : Counted S) (c : Context) (w : W)
        → Fallen 0 s.log
            (handle_read (instrumented h) read_all decode write got r dir s c w).state.log
    unfolding handle_read
    read-active (failed e) r dir s c w = (refl, omega arith)
    read-active (datagram raw) r dir s c w = decoded-active (decode raw) raw r dir s c w

    -- The CoAP parser leaves the gauge of active connections alone, whatever the datagram and
    -- the hooks' answers are.
    coap_parse-active :
        (r : R) (dir : Direction) (s : Counted S) (c : Context) (w : W)
        → Fallen 0 s.log (parse (instrumented h) read_all decode write r dir s c w).state.log
    unfolding parse
    coap_parse-active r dir s c w = read-active (read_all r).0 (read_all r).1 dir s c w
