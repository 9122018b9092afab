-- ===== src/Examples/Udp.antt =====
-- pkg/server/udp at concrete inputs: two sessions at most, a handler that counts the
-- disconnections, and a parser that relays every datagram.
use mproxy.Prelude.{
  ◌≡◌, refl, String, true, false, List, [], ◌∷◌, none, some, ℕ, suc, length, arith,
}
use mproxy.Prelude.Int.{pos, ◌<ℤ◌, ◌≤ℤ◌, since, i64, ◌+ℤ◌}
use mproxy.Prelude.Maps.{lookup, insert, delete}
use mproxy.Handler.{Bytes, Handler, noop_handler}
use mproxy.Parser.{Parser}
use mproxy.Udp.Session.{
  Session, SessionManager, dialed, get_or_create, get, count, fresh_session, close_session,
  remove_expired, cleanup_expired, force_close_all,
}
use mproxy.Udp.Session.Limits.{Served, IsSound, get_or_create-Served}
use mproxy.Udp.Session.Entries.{notify_all, contexts, expired}
use mproxy.Udp.Session.Expiry.{cleanup_expired_lem, force_close_all_lem}
use mproxy.Udp.Server.{
  Config, with_defaults, Server, new, Target, Event, arrives, works, cleans, timed_out, reader_exit,
  read_round, clean, step, run, work, offer, begin_packet, serve, serves, take_nth,
}
use mproxy.Udp.Server.Readers.{is_covered}
use mproxy.Udp.Server.Soundness.{run-limits, run-sessions}
use mproxy.Udp.Server.Teardown.{reader_exit-get, clean-reads}

abbrev counting : Handler ℕ
counting = record (noop_handler ℕ) { on_disconnect = λ s c. (suc s, c, none) }

abbrev relay : Target → Parser ℕ Bytes (List (Target × Bytes))
relay t datagram d s c w = record {
  state = s;
  hctx = c;
  inp = [];
  out = (t, datagram) ∷ w;
  error = none;
}

abbrev config : Config
config = record {
  target_address = "backend:5683";
  session_timeout = pos 30;
  shutdown_timeout = pos 10;
  max_sessions = pos 2;
  buffer_size = pos 0;
  worker_pool_size = pos 1;
}

abbrev pub heap : ℕ → Session
heap a = fresh_session "" "" 0 0 false

abbrev idle_server : Server ℕ (List (Target × Bytes))
idle_server = new config heap 0 []

abbrev job : String → Event
job addr = arrives (record { client_addr = addr; datagram = 1 ∷ 2 ∷ [] })

-- Two clients come, at the times 100 and 125.
abbrev two_clients : List Event
two_clients =
    job "a:1"
    ∷ works (dialed 7) "s1" 100 false
    ∷ serves 0
    ∷ job "b:1"
    ∷ works (dialed 8) "s2" 125 false
    ∷ serves 0
    ∷ []

abbrev busy : Server ℕ (List (Target × Bytes))
busy = run counting relay idle_server two_clients

abbrev busy_manager : SessionManager
busy_manager = busy.manager

-- The first client's session is cleaned up, and the client comes again before its reader ends.
abbrev again : List Event
again = cleans ("a:1" ∷ []) ∷ job "a:1" ∷ works (dialed 9) "s3" 131 false ∷ serves 0 ∷ []

abbrev returned : Server ℕ (List (Target × Bytes))
returned = run counting relay busy again

busy-sessions : busy_manager.sessions ≡ ("a:1", 0) ∷ ("b:1", 1) ∷ []
unfolding run step new work offer clean remove_expired i64 ◌+ℤ◌ begin_packet serve take_nth
    get_or_create get lookup insert delete with_defaults
busy-sessions = refl

returned-sessions : returned.manager.sessions ≡ ("b:1", 1) ∷ ("a:1", 2) ∷ []
unfolding run step new work offer clean remove_expired i64 ◌+ℤ◌ begin_packet serve take_nth
    get_or_create get lookup insert delete with_defaults
returned-sessions = refl

run-limits_example : (pos (count busy_manager) ≤ℤ pos 2) × (pos (length busy.queue) ≤ℤ pos 2)
unfolding with_defaults i64 ◌+ℤ◌
run-limits_example =
    run-limits counting relay config heap 0 [] two_clients (omega arith) (omega arith)

run-sessions_example :
    ((busy_manager.heap 1).remote_addr ≡ "b:1") × (is_covered busy.readers busy.serving 1 ≡ true)
unfolding run step new work offer clean remove_expired i64 ◌+ℤ◌ begin_packet serve take_nth
    get_or_create get lookup insert delete with_defaults
run-sessions_example =
    run-sessions counting relay config heap 0 [] two_clients "b:1" 1 (omega arith) refl

busy-IsSound : IsSound busy_manager
unfolding run step new work offer clean remove_expired i64 ◌+ℤ◌ begin_packet serve take_nth
    get_or_create get lookup insert delete with_defaults
busy-IsSound = record {
  distinct = (refl, (refl, tt));
  owned = (omega arith, refl, (omega arith, refl, tt));
  limit = λ p. omega arith;
}

get_or_create-Served_example :
    let r = get_or_create busy_manager "a:1" "backend:5683" (dialed 9) "s3" 131 false in
    Served busy_manager "a:1" 131 "b:1" 1 r × IsSound r.0
get_or_create-Served_example =
    get_or_create-Served busy_manager "a:1" "backend:5683" (dialed 9) "s3" 131 false "b:1" 1
      busy-IsSound

cleanup_expired_lem_example :
    let (sm', s') = cleanup_expired counting busy_manager 0 131 (pos 30) in
    let idle = since 131 (busy_manager.heap 0).last_activity in
    (pos 30 <ℤ idle → (get sm' "a:1" ≡ none) × ((sm'.heap 0).cancelled ≡ true))
    × (idle ≤ℤ pos 30 → (get sm' "a:1" ≡ some 0) × (sm'.heap 0 ≡ busy_manager.heap 0))
    × (s'
        ≡ notify_all counting 0 (
            contexts busy_manager.heap
              (expired busy_manager.heap 131 (pos 30) busy_manager.sessions)))
    × IsSound sm'
unfolding run step new work offer clean remove_expired i64 ◌+ℤ◌ begin_packet serve take_nth
    get_or_create get lookup insert delete with_defaults
cleanup_expired_lem_example =
    cleanup_expired_lem counting busy_manager 0 131 (pos 30) "a:1" 0 busy-IsSound refl

force_close_all_lem_example :
    let (sm', s') = force_close_all counting busy_manager 0 in
    (sm'.sessions ≡ [])
    × ((j : String) (a : ℕ) → get busy_manager j ≡ some a → (sm'.heap a).cancelled ≡ true)
    × (s' ≡ notify_all counting 0 (contexts busy_manager.heap busy_manager.sessions))
force_close_all_lem_example = force_close_all_lem counting busy_manager 0 busy-IsSound

-- The reader of the first session ends: the third one is forgotten and stays open.
reader_exit-get_example :
    let sv' = reader_exit counting relay returned 0 in
    (get sv'.manager "a:1" ≡ none)
    × (sv'.manager.heap 2 ≡ returned.manager.heap 2)
    × ((sv'.manager.heap 0).cancelled ≡ true)
    × (sv'.state ≡ 2)
unfolding run step new work offer clean remove_expired i64 ◌+ℤ◌ begin_packet serve take_nth
    get_or_create get lookup insert delete with_defaults close_session
reader_exit-get_example = reader_exit-get counting relay returned 0 2 "a:1" refl refl

clean-reads_example :
    let sv' = clean counting relay busy ("a:1" ∷ []) in
    (sv'.state ≡ 1)
    × ((read_round counting relay sv' 0 timed_out 140).state ≡ 2)
    × (get (read_round counting relay sv' 0 timed_out 140).manager "a:1" ≡ none)
unfolding run step new work offer clean remove_expired i64 ◌+ℤ◌ begin_packet serve take_nth
    get_or_create get lookup insert delete with_defaults
clean-reads_example = clean-reads counting relay busy "a:1" 0 timed_out 140 refl
