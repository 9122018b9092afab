-- ===== src/Proxy/Approval.antt =====
-- pkg/proxy/mqtt.go: what the MQTT proxy sends to its backends in any run.
use mproxy.Prelude.{
  arith, ℕ, ◌≡◌, refl, String, Bool, true, false, not, ◌&&◌, Option, none, List, [], ◌∷◌, All,
  Option-cases, some, ◌⊎◌, inl, inr, if◌then◌else◌, subst, sym,
}
use mproxy.Errors.{Err}
use mproxy.Handler.{Context, Handler}
use mproxy.Parser.{Direction, upstream, downstream, Parser}
use mproxy.Parser.Mqtt.{
  Read, failed, packet, Packet, Handled, finish, handle, parse, handle_downstream,
}
use mproxy.Parser.Mqtt.Forwarding.{IsQuiet, authorise, approved, parse-refused, parse-approved}
use mproxy.Tcp.Connection.{
  Connection, Target, backend_of, client_of, target, Started, Deadlines, handshake_failed, undialed,
  dialed, deadlines_set, context_done, read_deadline_failed, write_deadline_failed, find_conn,
  is_done,
}
use mproxy.Tcp.Server.{
  Server, Event, accepts, starts, rounds, finishes, stops, times_out, accept, admit, end_conn,
  start, start_conn, stream_round, stream_conn, step, run,
}
use mproxy.Tcp.Server as TcpServer
use mproxy.Tcp.Server.Places.{id-find_conn}
use mproxy.Proxy.{MqttConfig, new_mqtt, serve_mqtt}

-- What is written to the network, the last first.
abbrev pub Sent : Type 0 → Type 0
Sent F = List (Target × Packet F)

-- A write to a connection is kept, and fails as `fails` says.
abbrev pub send :
    {F : Type 0}
    → (Target → Packet F → Option Err)
    → Target
    → Sent F
    → Packet F
    → Sent F × Option Err
send fails t w p = ((t, p) ∷ w, fails t p)

if_net :
    {S X : Type 0} (P : X → Type 0) (b : Bool) (sv sv' : Server S (List X))
    → All P sv.net
    → All P sv'.net
    → All P (if b then sv else sv').net
if_net P true sv sv' sound sound' = sound
if_net P false sv sv' sound sound' = sound'

module _ {S F R : Type 0} (h : Handler S) (read : R → Read F × R)
    (fails : Target → Packet F → Option Err) where
  -- What reading gave is a packet that its authorising hook, called with this state and context, did
  -- not refuse, and `p` is that packet as the hook has changed it.
  abbrev pub IsApproved : R → S → Context → Packet F → Type 0
  IsApproved r s c p =
      (pkt : Packet F) × (r' : R) × (read r ≡ (packet pkt, r'))
      × ((authorise h pkt s c).2 ≡ none)
      × (p ≡ approved h pkt s c)

  abbrev parser : Target → Parser S R (Sent F)
  parser t = parse h read (send fails t)

  -- An event sends a packet to the backend of a connection by a round of its upstream, and approves it
  -- with the handler's state and the connection's context of then.
  abbrev pub IsSending : Server S (Sent F) → Event R → Target × Packet F → Type 0
  IsSending sv e (client_of b, p) = Unit
  IsSending sv (rounds a upstream deadlines_set r) (backend_of b, p) =
      (a ≡ b)
      × (c : Connection) × (find_conn a sv.conns ≡ some c)
      × IsApproved r sv.state c.context p
  IsSending sv e (backend_of b, p) = ⊥

  -- One of the events of a run sends it.
  abbrev pub IsCaused : Server S (Sent F) → List (Event R) → Target × Packet F → Type 0
  IsCaused sv [] x = ⊥
  IsCaused sv (e ∷ es) x = IsSending sv e x ⊎ IsCaused (step h parser sv e) es x

  module _ (P : Target × Packet F → Type 0) where
    -- One packet of a client.
    pub upstream-All :
        (quiet : IsQuiet h) (a : ℕ) (r : R) (s : S) (c : Context) (w : Sent F) (got : Read F × R)
        → read r ≡ got
        → ((p : Packet F) → IsApproved r s c p → P (backend_of a, p))
        → All P w
        → All P (parser (backend_of a) r upstream s c w).out
    unfolding parse handle
    upstream-All quiet a r s c w (failed e, r') is f sound = rw (is, parse) sound
    upstream-All quiet a r s c w (packet pkt, r') is f sound =
        elim (Option-cases (authorise h pkt s c).2) [
          | inl allowed ↦
              rw
                ((parse-approved h read (send fails (backend_of a)) r r' pkt s c w is quiet
                  allowed).0)
                (f (approved h pkt s c) (pkt, r', is, allowed, refl), sound)
          | inr (e, refused) ↦
              rw (parse-refused h read (send fails (backend_of a)) r r' pkt s c w e is refused)
                sound
        ]

    finish-All :
        (a : ℕ) (x : Handled S F) (r : R) (w : Sent F)
        → ((p : Packet F) → P (client_of a, p))
        → All P w
        → All P (finish h read (send fails (client_of a)) x r w).out
    unfolding finish
    finish-All a x r w f sound = elim (Option-cases x.error) [
      | inl allowed ↦ rw (allowed, finish) (f _, sound)
      | inr (e, refused) ↦ rw (refused, finish) sound
    ]

    pub downstream-All :
        (a : ℕ) (r : R) (s : S) (c : Context) (w : Sent F) (got : Read F × R)
        → read r ≡ got
        → ((p : Packet F) → P (client_of a, p))
        → All P w
        → All P (parser (client_of a) r downstream s c w).out
    unfolding parse handle
    downstream-All a r s c w (failed e, r') is f sound = rw (is, parse) sound
    downstream-All a r s c w (packet pkt, r') is f sound =
        rw (is, parse) (finish-All a (handle_downstream h pkt s c) r' w f sound)

  accept-net :
      (sv : Server S (Sent F)) (remote_addr id : String) (configured : Option Err)
      → (accept sv remote_addr id configured).net ≡ sv.net
  unfolding accept admit
  accept-net sv remote_addr id configured = ground arith

  start_conn-net :
      (sv : Server S (Sent F)) (c : Connection) (result : Started)
      → (start_conn sv c result).net ≡ sv.net
  unfolding start_conn end_conn
  start_conn-net sv c (handshake_failed e) = refl
  start_conn-net sv c (undialed e) = refl
  start_conn-net sv c (dialed cert) = refl

  start-net : (sv : Server S (Sent F)) (a : ℕ) (result : Started) → (start sv a result).net ≡ sv.net
  unfolding start
  start-net sv a result = elim (Option-cases (find_conn a sv.conns)) [
    | inl e ↦ rw (e, start) refl
    | inr (c, e) ↦ rw (e, start) (ground (arith, start_conn-net sv c result))
  ]

  finish-net : (sv : Server S (Sent F)) (a : ℕ) → (TcpServer.finish h parser sv a).net ≡ sv.net
  unfolding TcpServer.finish end_conn
  finish-net sv a = elim (Option-cases (find_conn a sv.conns)) [
    | inl e ↦ rw (e, TcpServer.finish) refl
    | inr (c, e) ↦ rw (e, TcpServer.finish) (ground arith)
  ]

  module _ (P : Target × Packet F → Type 0) (quiet : IsQuiet h) where
    streamed-All :
        (sv : Server S (Sent F)) (a : ℕ) (c : Connection) (dir : Direction) (deadlines : Deadlines)
        (r : R)
        → find_conn a sv.conns ≡ some c
        → ((x : Target × Packet F) → IsSending sv (rounds a dir deadlines r) x → P x)
        → All P sv.net
        → All P (stream_conn h parser sv c dir deadlines r).net
    unfolding stream_conn target
    streamed-All sv a c dir (read_deadline_failed e) r found f sound = sound
    streamed-All sv a c dir (write_deadline_failed e) r found f sound = sound
    streamed-All sv a c dir context_done r found f sound = if_net P sv.forced _ sv sound sound
    streamed-All sv a c upstream deadlines_set r found f sound =
        upstream-All P quiet c.id r sv.state c.context sv.net (read r) refl
          (λ p is. f (backend_of c.id, p) (sym (id-find_conn a c sv.conns found), c, found, is))
          sound
    streamed-All sv a c downstream deadlines_set r found f sound =
        downstream-All P c.id r sv.state c.context sv.net (read r) refl
          (λ p. f (client_of c.id, p) tt) sound

    round-All :
        (sv : Server S (Sent F)) (a : ℕ) (dir : Direction) (deadlines : Deadlines) (r : R)
        → ((x : Target × Packet F) → IsSending sv (rounds a dir deadlines r) x → P x)
        → All P sv.net
        → All P (stream_round h parser sv a dir deadlines r).net
    unfolding stream_round
    round-All sv a dir deadlines r f sound = elim (Option-cases (find_conn a sv.conns)) [
      | inl e ↦ rw (e, stream_round) sound
      | inr (c, e) ↦
          rw (e, stream_round)
            (if_net P (c.streaming && not (is_done c dir)) _ sv
              (streamed-All sv a c dir deadlines r e f sound) sound)
    ]

    step-All :
        (sv : Server S (Sent F)) (e : Event R)
        → ((x : Target × Packet F) → IsSending sv e x → P x)
        → All P sv.net
        → All P (step h parser sv e).net
    unfolding step
    step-All sv (accepts remote_addr id configured) f sound =
        subst (All P) (sym (accept-net sv remote_addr id configured)) sound
    step-All sv (starts a result) f sound = subst (All P) (sym (start-net sv a result)) sound
    step-All sv (rounds a dir deadlines r) f sound = round-All sv a dir deadlines r f sound
    step-All sv (finishes a) f sound = subst (All P) (sym (finish-net sv a)) sound
    step-All sv stops f sound = sound
    step-All sv times_out f sound = sound

    run-All :
        (sv : Server S (Sent F)) (events : List (Event R))
        → ((x : Target × Packet F) → IsCaused sv events x → P x)
        → All P sv.net
        → All P (run h parser sv events).net
    unfolding run
    run-All sv [] f sound = sound
    run-All sv (e ∷ es) f sound =
        run-All (step h parser sv e) es (λ x is. f x (inr is))
          (step-All sv e (λ x is. f x (inl is)) sound)

  -- The proxy sends a backend nothing that was not approved. Whatever its clients, backends and
  -- network do, in any order, each packet that was written to the backend of a connection of the MQTT
  -- proxy was written by a round of that connection's upstream in this run. That round read a packet
  -- from the client, and the packet's authorising hook, called with the handler's state and the
  -- connection's context as they were at that round, did not refuse it; what was written is the packet
  -- as the hook has changed it. This is for a handler whose notifications do not write into the slices
  -- they are given.
  pub serve_mqtt-approved :
      (cfg : MqttConfig) (s : S) (events : List (Event R))
      → IsQuiet h
      → All
          (IsCaused (new_mqtt cfg s []) events)
          (serve_mqtt h read (send fails) (new_mqtt cfg s []) events).net
  unfolding serve_mqtt new_mqtt TcpServer.new
  serve_mqtt-approved cfg s events quiet =
      run-All (IsCaused (new_mqtt cfg s []) events) quiet (new_mqtt cfg s []) events (λ x is. is) tt
