-- ===== src/Udp/Server.antt =====
-- pkg/server/udp/server.go: the queue of datagrams, the worker that handles one, and the reader
-- that each session has for its backend. Reads and dials are the network's, given as results.
pub mod Steps
pub mod Readers
pub mod Reading
pub mod Soundness
pub mod Teardown
use mproxy.Prelude.{
  ℕ, zero, suc, ◌+◌, String, Bool, true, false, ◌&&◌, Option, none, some, List, [], ◌∷◌, ◌++◌, ◌==◌,
  if◌then◌else◌, length,
}
use mproxy.Prelude.Int.{ℤ, pos, ltb_ℤ, leb_ℤ, i64, ◌+ℤ◌, since, default_if_zero}
use mproxy.Errors.{Err}
use mproxy.Handler.{Bytes, Context, Handler}
use mproxy.Parser.{Direction, upstream, downstream, Outcome, Parser}
use mproxy.Udp.Session.{
  Session, SessionManager, DialResult, Created, session, failed, get_or_create, remove, store,
  new_session_manager, update_activity, close_session, remove_expired, force_close_all,
}

-- Without the listener's address, the sizes of the socket's buffers, and the logger.
pub record Config : Type 0 where
  pub target_address : String
  pub session_timeout : ℤ
  pub shutdown_timeout : ℤ
  pub max_sessions : ℤ
  pub buffer_size : ℤ
  pub worker_pool_size : ℤ

cap_at_datagram : ℤ → ℤ
cap_at_datagram n = if ltb_ℤ (pos 65535) n then pos 65535 else n

unfoldable pub with_defaults : Config → Config
unfolding cap_at_datagram default_if_zero
with_defaults c = record c {
  session_timeout = default_if_zero c.session_timeout (pos 30000000000);
  shutdown_timeout = default_if_zero c.shutdown_timeout (pos 30000000000);
  buffer_size = cap_at_datagram (default_if_zero c.buffer_size (pos 8192));
  worker_pool_size = default_if_zero c.worker_pool_size (pos 100);
}

pub record PacketJob : Type 0 where
  pub client_addr : String
  pub datagram : Bytes

-- A worker's datagram between `GetOrCreate` and `Parse`: its session, and whether that is new.
pub record Serving : Type 0 where
  pub address : ℕ
  pub is_new : Bool
  pub datagram : Bytes

-- The queue has its oldest job first; `dropped` counts the datagrams that found it full.
-- `serving` is what the workers have in hand, and `readers` are the addresses of the sessions with a running `readDownstream`. `net` is what has been sent.
pub record Server (S W : Type 0) : Type 0 where
  pub config : Config
  pub manager : SessionManager
  pub queue : List PacketJob
  pub dropped : ℕ
  pub serving : List Serving
  pub readers : List ℕ
  pub state : S
  pub net : W

-- Where a parser's writer sends: to the backend of a session, or to a client.
pub data Target : Type 0 where
  backend_of : Option ℕ → Target
  client : String → Target

abbrev pub set_context : SessionManager → ℕ → Context → SessionManager
set_context sm a c = record sm { heap = store sm.heap a (record (sm.heap a) { context = c }) }

-- Without the one reader that ends.
unfoldable pub stop_reader : ℕ → List ℕ → List ℕ
stop_reader a [] = []
stop_reader a (b ∷ bs) = let rest = stop_reader a bs in if b == a then rest else b ∷ rest

unfoldable pub is_running : ℕ → List ℕ → Bool
is_running a [] = false
is_running a (b ∷ bs) = if b == a then true else is_running a bs

-- The element at a place of a list, and the others.
unfoldable pub take_nth : {A : Type 0} → ℕ → List A → Option (A × List A)
take_nth n [] = none
take_nth zero (x ∷ xs) = some (x, xs)
take_nth (suc n) (x ∷ xs) = elim (take_nth n xs) [ none ↦ none | some (y, ys) ↦ some (y, x ∷ ys) ]

-- What a read from the backend gives, with the deadline set before it.
pub data Incoming : Type 0 where
  no_deadline : Err → Incoming
  timed_out : Incoming
  broken : Err → Incoming
  received : Bytes → Incoming

-- What the goroutines of the server do: a worker takes a job and finds its session, under the lock
-- of the sessions; a worker parses the datagram that it has in hand, without a lock, and starts the
-- reader of a new session; a reader makes a round; the cleanup removes the keys that its first pass
-- found, at some time before; and the shutdown cancels the context that all sessions' are derived
-- from and closes everything. A `Parse` and a reader's round are one step each.
pub data Event : Type 0 where
  arrives : PacketJob → Event
  works : DialResult → String → ℕ → Bool → Event
  serves : ℕ → Event
  reads : ℕ → Incoming → ℕ → Event
  cleans : List String → Event
  cancels : Event
  forces : Event

-- The size of the channel of jobs.
abbrev pub capacity : Config → ℤ
capacity c = i64 (c.worker_pool_size +ℤ c.worker_pool_size)

module _ {S W : Type 0} where
  -- `New`. `heap` stands for what is on the heap before any session is made.
  unfoldable pub new : Config → (ℕ → Session) → S → W → Server S W
  unfolding with_defaults new_session_manager
  new c heap s w =
      let c' = with_defaults c in
      record {
        config = c';
        manager = new_session_manager c'.max_sessions heap;
        queue = [];
        dropped = 0;
        serving = [];
        readers = [];
        state = s;
        net = w;
      }

  -- `workerCancel` at shutdown.
  unfoldable pub cancel : Server S W → Server S W
  cancel sv = record sv {
    manager = record sv.manager { heap = λ a. record (sv.manager.heap a) { cancelled = true } };
  }

  -- The read loop offers a datagram to the workers, and drops it if the channel is full.
  unfoldable pub offer : Server S W → PacketJob → Server S W
  offer sv job =
      if ltb_ℤ (pos (length sv.queue)) (capacity sv.config)
      then record sv { queue = sv.queue ++ job ∷ [] }
      else record sv { dropped = sv.dropped + 1 }

  module _ (h : Handler S) (parser : Target → Parser S Bytes W) where
    unfoldable pub serve_session : Server S W → ℕ → Bool → Bytes → Server S W
    serve_session sv a is_new datagram =
        let s = sv.manager.heap a in
        let o = parser (backend_of s.backend) datagram upstream sv.state s.context sv.net in
        record sv {
          manager = set_context sv.manager a o.hctx;
          readers = if is_new then a ∷ sv.readers else sv.readers;
          state = o.state;
          net = o.out;
        }

    unfoldable pub hold : Server S W → Created → Bytes → Server S W × Option Err
    hold sv (failed e) datagram = (sv, some e)
    hold sv (session a is_new) datagram = (
      record sv {
        serving = sv.serving ++ record { address = a; is_new = is_new; datagram = datagram } ∷ [];
      },
      none,
    )

    -- A worker begins to handle a job. `dial`, `id` and `now` are for a new session, whose context is
    -- done from the start if the workers' is.
    unfoldable pub begin_packet :
        Server S W → PacketJob → DialResult → String → ℕ → Bool → Server S W × Option Err
    unfolding hold
    begin_packet sv job dial id now done =
        let (sm', made) =
          get_or_create sv.manager job.client_addr sv.config.target_address dial id now done in
        hold (record sv { manager = sm' }) made job.datagram

    -- A worker goes on with what it has in hand.
    unfoldable pub serve : Server S W → Option (Serving × List Serving) → Server S W
    unfolding serve_session
    serve sv none = sv
    serve sv (some (held, rest)) =
        serve_session (record sv { serving = rest }) held.address held.is_new held.datagram

    -- The deferred function of `readDownstream`: it removes whatever session the client's address
    -- has now, tells the handler, and closes its own session.
    unfoldable pub reader_exit : Server S W → ℕ → Server S W
    reader_exit sv a =
        let sm = remove sv.manager (sv.manager.heap a).remote_addr in
        let (s', c', notified) = h.on_disconnect sv.state (sm.heap a).context in
        let gone = close_session (record (sm.heap a) { context = c' }) in
        record sv {
          manager = record sm { heap = store sm.heap a gone };
          readers = stop_reader a sv.readers;
          state = s';
        }

    unfoldable pub deliver : Server S W → ℕ → Bytes → ℕ → Server S W
    deliver sv a datagram now =
        let sm = update_activity sv.manager a now in
        let s = sm.heap a in
        let o = parser (client s.remote_addr) datagram downstream sv.state s.context sv.net in
        record sv { manager = set_context sm a o.hctx; state = o.state; net = o.out }

    unfoldable pub read_result : Server S W → ℕ → Incoming → ℕ → Server S W
    unfolding reader_exit deliver
    read_result sv a (no_deadline e) now = reader_exit sv a
    read_result sv a timed_out now =
        if ltb_ℤ sv.config.session_timeout (since now (sv.manager.heap a).last_activity)
        then reader_exit sv a
        else sv
    read_result sv a (broken e) now = reader_exit sv a
    read_result sv a (received datagram) now = deliver sv a datagram now

    -- One round of the loop of `readDownstream`. The session's context is looked at first.
    unfoldable pub read_round : Server S W → ℕ → Incoming → ℕ → Server S W
    unfolding read_result
    read_round sv a incoming now =
        if (sv.manager.heap a).cancelled then reader_exit sv a else read_result sv a incoming now

    unfoldable pub work : Server S W → List PacketJob → DialResult → String → ℕ → Bool → Server S W
    work sv [] dial id now done = sv
    work sv (job ∷ jobs) dial id now done =
        (begin_packet (record sv { queue = jobs }) job dial id now done).0

    unfoldable pub clean : Server S W → List String → Server S W
    clean sv ks =
        let (sm', s') = remove_expired h sv.manager sv.state ks in
        record sv { manager = sm'; state = s' }

    unfoldable pub force : Server S W → Server S W
    force sv =
        let (sm', s') = force_close_all h sv.manager sv.state in
        record sv { manager = sm'; state = s' }

    unfoldable pub step : Server S W → Event → Server S W
    step sv (arrives job) = offer sv job
    step sv (works dial id now done) =
        if ltb_ℤ (pos (length sv.serving)) sv.config.worker_pool_size
        then work sv sv.queue dial id now done
        else sv
    step sv (serves n) = serve sv (take_nth n sv.serving)
    step sv (reads a incoming now) =
        if is_running a sv.readers then read_round sv a incoming now else sv
    step sv (cleans ks) = clean sv ks
    step sv cancels = cancel sv
    step sv forces = force sv

    unfoldable pub run : Server S W → List Event → Server S W
    run sv [] = sv
    run sv (e ∷ es) = run (step sv e) es
