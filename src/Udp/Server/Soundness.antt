-- ===== src/Udp/Server/Soundness.antt =====
-- pkg/server/udp/server.go: what holds of the sessions after any steps of the server's goroutines.
use mproxy.Prelude.{ℕ, ◌≡◌, refl, String, some, true, List, arith, length}
use mproxy.Prelude.Int.{pos, ◌≤ℤ◌, ◌<ℤ◌}
use mproxy.Handler.{Bytes, Handler}
use mproxy.Parser.{Parser}
use mproxy.Udp.Session.{Session, get, count, new_session_manager}
use mproxy.Udp.Session.Limits.{lookup-Owned}
use mproxy.Udp.Server.Readers.{is_covered}
use mproxy.Udp.Server.Reading.{run-covered}
use mproxy.Udp.Server.{Config, capacity, with_defaults, new, Target, Event, run}
use mproxy.Udp.Server.Steps.{IsServing, run-IsServing}

new-IsServing :
    {S W : Type 0} (c : Config) (heap : ℕ → Session) (s : S) (w : W)
    → pos 0 ≤ℤ capacity (with_defaults c)
    → IsServing (with_defaults c) (new c heap s w)
unfolding new new_session_manager
new-IsServing c heap s w q = record {
  settled = (refl, refl, q);
  sound = record { distinct = tt; owned = tt; limit = λ p. ground (arith, p) };
}

-- Start a server and let its goroutines take any steps in any order: datagrams that arrive,
-- workers, reads from the backends, cleanups, the shutdown. If the channel's size is not negative and
-- `MaxSessions` is positive, there are never more sessions than `MaxSessions`, and never more jobs
-- in the channel than its size.
pub run-limits :
    {S W : Type 0} (h : Handler S) (parser : Target → Parser S Bytes W) (c : Config)
    (heap : ℕ → Session) (s : S) (w : W) (es : List Event)
    → pos 0 ≤ℤ capacity (with_defaults c)
    → pos 0 <ℤ c.max_sessions
    → let sv = run h parser (new c heap s w) es in
      (pos (count sv.manager) ≤ℤ c.max_sessions)
      × (pos (length sv.queue) ≤ℤ capacity (with_defaults c))
unfolding count with_defaults
run-limits h parser c heap s w es q p =
    let v =
      run-IsServing h parser (with_defaults c) (new c heap s w) es (new-IsServing c heap s w q) in
    (ground (arith, p, v.sound.limit, v.settled.1), v.settled.2)

-- After any steps of the goroutines of a server whose channel has no negative size, in any order, the
-- session that a client has is one for that client's address; and its downstream reader runs, or a
-- worker has the datagram in hand for which the session was made, and starts the reader when it has
-- parsed that.
pub run-sessions :
    {S W : Type 0} (h : Handler S) (parser : Target → Parser S Bytes W) (c : Config)
    (heap : ℕ → Session) (s : S) (w : W) (es : List Event) (key : String) (a : ℕ)
    → pos 0 ≤ℤ capacity (with_defaults c)
    → get (run h parser (new c heap s w) es).manager key ≡ some a
    → let sv = run h parser (new c heap s w) es in
      ((sv.manager.heap a).remote_addr ≡ key) × (is_covered sv.readers sv.serving a ≡ true)
unfolding get new new_session_manager
run-sessions h parser c heap s w es key a q e =
    let sv = run h parser (new c heap s w) es in
    let start = new-IsServing c heap s w q in
    let v = run-IsServing h parser (with_defaults c) (new c heap s w) es start in
    (
      (lookup-Owned sv.manager.heap sv.manager.next_address a key sv.manager.sessions v.sound.owned
          e).1,
      run-covered h parser (with_defaults c) (new c heap s w) es key a start tt e,
    )
