-- ===== src/Proxy/Coap.antt =====
-- pkg/proxy/coap.go: what the CoAP proxy sends to its backends in any run.
use mproxy.Prelude.{
  ℕ, ◌≡◌, refl, String, Bool, true, false, Option, none, some, ◌⊎◌, List, [], ◌∷◌, All,
  Option-cases, inl, inr, if◌then◌else◌,
}
use mproxy.Errors.{Err}
use mproxy.Handler.{Bytes, Context, Handler}
use mproxy.Parser.{upstream, downstream, Parser}
use mproxy.Parser.Coap.{Message, Read, datagram, Decoded, message, undecoded, parse}
use mproxy.Parser.Coap.Forwarding.{authorise, coap_parse-refused, coap_parse-approved}
use mproxy.Udp.Session.{
  Session, DialResult, Created, failed, session, get_or_create, update_activity,
}
use mproxy.Udp.Server.{
  Target, backend_of, client, Server, PacketJob, Event, arrives, works, serves, reads, cleans,
  cancels, forces, Incoming, no_deadline, timed_out, broken, received, is_running, offer, cancel,
  clean, force, work, begin_packet, hold, serve, serve_session, take_nth, Serving, reader_exit,
  deliver, read_result, read_round, step, run,
}
use mproxy.Proxy.{CoapConfig, new_coap}
use mproxy.Udp.Server as UdpServer

abbrev pub Sent : Type 0
Sent = List (Target × Bytes)

-- A write is kept, and fails as `fails` says.
abbrev pub send_datagram : (Target → Bytes → Option Err) → Target → Sent → Bytes → Sent × Option Err
send_datagram fails t w raw = ((t, raw) ∷ w, fails t raw)

-- The reader of one datagram.
abbrev pub whole : Bytes → Read × Bytes
whole raw = (datagram raw, [])

module _ {S : Type 0} (h : Handler S) (decode : Bytes → Decoded)
    (fails : Target → Bytes → Option Err) where
  abbrev pub coap_parser : Target → Parser S Bytes Sent
  coap_parser t = parse h whole decode (send_datagram fails t)

  -- The datagram that a worker has in hand is a message that the authorising hooks, called with the
  -- handler's state and the context of the worker's session, do not refuse.
  abbrev pub IsAllowed : Server S Sent → Option (Serving × List Serving) → Target × Bytes → Type 0
  IsAllowed sv held (client a, raw) = Unit
  IsAllowed sv none (backend_of b, raw) = ⊥
  IsAllowed sv (some (held, rest)) (backend_of b, raw) =
      (b ≡ (sv.manager.heap held.address).backend)
      × (raw ≡ held.datagram)
      × (msg : Message) × (decode raw ≡ message msg)
      × ((authorise h msg sv.state (sv.manager.heap held.address).context).2 ≡ none)

  -- An event sends a datagram to a backend by a worker that goes on with what it has in hand.
  abbrev pub IsSending : Server S Sent → Event → Target × Bytes → Type 0
  IsSending sv e (client a, raw) = Unit
  IsSending sv (serves n) (backend_of b, raw) =
      IsAllowed sv (take_nth n sv.serving) (backend_of b, raw)
  IsSending sv e (backend_of b, raw) = ⊥

  -- One of the events of a run sends it.
  abbrev pub IsCaused : Server S Sent → List Event → Target × Bytes → Type 0
  IsCaused sv [] x = ⊥
  IsCaused sv (e ∷ es) x = IsSending sv e x ⊎ IsCaused (step h coap_parser sv e) es x

  module _ (P : Target × Bytes → Type 0) where
    if_net :
        (b : Bool) (sv sv' : Server S Sent)
        → All P sv.net
        → All P sv'.net
        → All P (if b then sv else sv').net
    if_net true sv sv' safe safe' = safe
    if_net false sv sv' safe safe' = safe'

    decoded_lem :
        (b : Option ℕ) (raw : Bytes) (s : S) (c : Context) (w : Sent) (d : Decoded)
        → decode raw ≡ d
        → ((msg : Message)
            → decode raw ≡ message msg
            → (authorise h msg s c).2 ≡ none
            → P (backend_of b, raw))
        → All P w
        → All P (coap_parser (backend_of b) raw upstream s c w).out
    unfolding parse
    decoded_lem b raw s c w (undecoded e) is f safe = rw is safe
    decoded_lem b raw s c w (message msg) is f safe = elim (Option-cases (authorise h msg s c).2) [
      | inl allowed ↦
          rw
            ((coap_parse-approved h whole decode (send_datagram fails (backend_of b)) raw [] raw msg
              s c w refl is allowed).0)
            (f msg is allowed, safe)
      | inr (e, refused) ↦
          rw
            (coap_parse-refused h whole decode (send_datagram fails (backend_of b)) raw [] raw msg s
              c w e refl is refused)
            safe
    ]

    delivered_lem :
        (a : String) (raw : Bytes) (s : S) (c : Context) (w : Sent) (d : Decoded)
        → decode raw ≡ d
        → P (client a, raw)
        → All P w
        → All P (coap_parser (client a) raw downstream s c w).out
    unfolding parse
    delivered_lem a raw s c w (undecoded e) is f safe = rw is safe
    delivered_lem a raw s c w (message msg) is f safe = rw is (f, safe)

    held_lem :
        (sv : Server S Sent) (made : Created) (raw : Bytes)
        → All P sv.net
        → All P (hold h coap_parser sv made raw).0.net
    unfolding hold
    held_lem sv (failed e) raw safe = safe
    held_lem sv (session a is_new) raw safe = safe

    work_lem :
        (sv : Server S Sent) (jobs : List PacketJob) (dial : DialResult) (id : String) (now : ℕ)
        (done : Bool)
        → All P sv.net
        → All P (work h coap_parser sv jobs dial id now done).net
    unfolding work begin_packet
    work_lem sv [] dial id now done safe = safe
    work_lem sv (job ∷ jobs) dial id now done safe =
        let got =
          get_or_create sv.manager job.client_addr sv.config.target_address dial id now done in
        held_lem (record sv { queue = jobs; manager = got.0 }) got.1 job.datagram safe

    serve_lem :
        (sv : Server S Sent) (held : Option (Serving × List Serving))
        → ((x : Target × Bytes) → IsAllowed sv held x → P x)
        → All P sv.net
        → All P (serve h coap_parser sv held).net
    unfolding serve serve_session
    serve_lem sv none f safe = safe
    serve_lem sv (some (held, rest)) f safe =
        let s = sv.manager.heap held.address in
        decoded_lem s.backend held.datagram sv.state s.context sv.net (decode held.datagram) refl
          (λ msg is allowed. f (backend_of s.backend, held.datagram) (refl, refl, msg, is, allowed))
          safe

    read_result_lem :
        (sv : Server S Sent) (a : ℕ) (incoming : Incoming) (now : ℕ)
        → ((b : String) (raw : Bytes) → P (client b, raw))
        → All P sv.net
        → All P (read_result h coap_parser sv a incoming now).net
    unfolding read_result reader_exit deliver
    read_result_lem sv a (no_deadline e) now f safe = safe
    read_result_lem sv a timed_out now f safe = if_net _ _ sv safe safe
    read_result_lem sv a (broken e) now f safe = safe
    read_result_lem sv a (received raw) now f safe =
        let s = (update_activity sv.manager a now).heap a in
        delivered_lem s.remote_addr raw sv.state s.context sv.net (decode raw) refl
          (f s.remote_addr raw) safe

    served_lem :
        (sv : Server S Sent) (n : ℕ)
        → ((x : Target × Bytes) → IsSending sv (serves n) x → P x)
        → (x : Target × Bytes) → IsAllowed sv (take_nth n sv.serving) x
        → P x
    served_lem sv n f (client a, raw) is = f (client a, raw) tt
    served_lem sv n f (backend_of b, raw) is = f (backend_of b, raw) is

    step_lem :
        (sv : Server S Sent) (e : Event)
        → ((x : Target × Bytes) → IsSending sv e x → P x)
        → All P sv.net
        → All P (step h coap_parser sv e).net
    unfolding step read_round reader_exit offer cancel clean force
    step_lem sv (arrives job) f safe = if_net _ _ _ safe safe
    step_lem sv (works dial id now done) f safe =
        if_net _ (work h coap_parser sv sv.queue dial id now done) sv
          (work_lem sv sv.queue dial id now done safe) safe
    step_lem sv (serves n) f safe = serve_lem sv (take_nth n sv.serving) (served_lem sv n f) safe
    step_lem sv (reads a incoming now) f safe =
        if_net (is_running a sv.readers) (read_round h coap_parser sv a incoming now) sv
          (if_net (sv.manager.heap a).cancelled (reader_exit h coap_parser sv a)
            (read_result h coap_parser sv a incoming now) safe
            (read_result_lem sv a incoming now (λ b raw. f (client b, raw) tt) safe))
          safe
    step_lem sv (cleans ks) f safe = safe
    step_lem sv cancels f safe = safe
    step_lem sv forces f safe = safe

    run_lem :
        (sv : Server S Sent) (events : List Event)
        → ((x : Target × Bytes) → IsCaused sv events x → P x)
        → All P sv.net
        → All P (run h coap_parser sv events).net
    unfolding run
    run_lem sv [] f safe = safe
    run_lem sv (e ∷ es) f safe =
        run_lem (step h coap_parser sv e) es (λ x is. f x (inr is))
          (step_lem sv e (λ x is. f x (inl is)) safe)

  -- The CoAP proxy sends a backend nothing that was refused. Whatever datagrams come and whatever the
  -- server's goroutines do, in any order, each datagram written to a backend was written in this run by
  -- a worker with that datagram in hand, to the backend of its session. The datagram is a message, and
  -- the authorising hooks, called with the handler's state and the session's context as they were at
  -- that step, did not refuse it.
  pub new_coap-allowed :
      (cfg : CoapConfig) (heap : ℕ → Session) (s : S) (events : List Event)
      → All
          (IsCaused (new_coap cfg heap s []) events)
          (run h coap_parser (new_coap cfg heap s []) events).net
  unfolding new_coap UdpServer.new
  new_coap-allowed cfg heap s events =
      run_lem (IsCaused (new_coap cfg heap s []) events) (new_coap cfg heap s []) events
        (λ x is. is) tt
