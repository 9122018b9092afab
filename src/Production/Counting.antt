-- ===== src/Production/Counting.antt =====
-- cmd/production/handlers.go: the counting handler beside the one that it wraps.
use mproxy.Prelude.{Option, ◌≡◌, arith}
use mproxy.Errors.{Err}
use mproxy.Handler.{Context, Handler}
use mproxy.Parser.{Direction, upstream, downstream}
use mproxy.Parser.Mqtt.{
  Packet, connect, publish, subscribe, unsubscribe, disconnect, other, Read, packet, failed,
  handle_upstream, handle_downstream, parse, handle,
}
use mproxy.Production.{Counted, instrumented}

module _ {S F R W : Type 0} (h : Handler S) (read : R → Read F × R)
    (write : W → Packet F → W × Option Err) where
  upstream_alike :
      (pkt : Packet F) (s : Counted S) (c : Context)
      → let o = handle_upstream h pkt s.inner c in
        let o' = handle_upstream (instrumented h) pkt s c in
        (o'.state.inner ≡ o.state) × (o'.hctx ≡ o.hctx) × (o'.pkt ≡ o.pkt) × (o'.error ≡ o.error)
  unfolding handle_upstream instrumented
  upstream_alike (connect p) s c = ground arith
  upstream_alike (publish p) s c = ground arith
  upstream_alike (subscribe p) s c = ground arith
  upstream_alike (unsubscribe p) s c = ground arith
  upstream_alike (disconnect p) s c = ground arith
  upstream_alike (other p) s c = ground arith

  downstream_alike :
      (pkt : Packet F) (s : Counted S) (c : Context)
      → let o = handle_downstream h pkt s.inner c in
        let o' = handle_downstream (instrumented h) pkt s c in
        (o'.state.inner ≡ o.state) × (o'.hctx ≡ o.hctx) × (o'.pkt ≡ o.pkt) × (o'.error ≡ o.error)
  unfolding handle_downstream instrumented
  downstream_alike (connect p) s c = ground arith
  downstream_alike (publish p) s c = ground arith
  downstream_alike (subscribe p) s c = ground arith
  downstream_alike (unsubscribe p) s c = ground arith
  downstream_alike (disconnect p) s c = ground arith
  downstream_alike (other p) s c = ground arith

  handle_alike :
      (got : Read F) (r : R) (dir : Direction) (s : Counted S) (c : Context) (w : W)
      → let o = handle h read write got r dir s.inner c w in
        let o' = handle (instrumented h) read write got r dir s c w in
        (o'.state.inner ≡ o.state)
        × (o'.hctx ≡ o.hctx)
        × (o'.inp ≡ o.inp)
        × (o'.out ≡ o.out)
        × (o'.error ≡ o.error)
  unfolding handle
  handle_alike (failed e) r dir s c w = ground arith
  handle_alike (packet pkt) r upstream s c w = ground (arith, upstream_alike pkt s c)
  handle_alike (packet pkt) r downstream s c w = ground (arith, downstream_alike pkt s c)

  -- Counting changes nothing else: with the counting handler around it, the MQTT parser reads and
  -- writes the same, in both directions, and leaves the same error, context and inner state as
  -- with the handler alone.
  parse-instrumented :
      (r : R) (dir : Direction) (s : Counted S) (c : Context) (w : W)
      → let o = parse h read write r dir s.inner c w in
        let o' = parse (instrumented h) read write r dir s c w in
        (o'.state.inner ≡ o.state)
        × (o'.hctx ≡ o.hctx)
        × (o'.inp ≡ o.inp)
        × (o'.out ≡ o.out)
        × (o'.error ≡ o.error)
  unfolding parse
  parse-instrumented r dir s c w = handle_alike (read r).0 (read r).1 dir s c w
