-- ===== src/Udp/Server/Reading.antt =====
-- pkg/server/udp/server.go: each session keeps its downstream reader, in any steps.
use mproxy.Prelude.{
  ℕ, ◌≡◌, refl, String, Bool, true, List, [], ◌∷◌, ◌++◌, arith, Option, none, some, if◌then◌else◌,
  Option-cases, inl, inr,
}
use mproxy.Prelude.Maps.{Dict, lookup}
use mproxy.Handler.{Bytes, Handler}
use mproxy.Parser.{Parser}
use mproxy.Udp.Session.{
  SessionManager, DialResult, unresolved, undialed, dialed, Created, session, failed, create,
  get_or_create, remove, drop_session, remove_one, remove_expired, close_entries, force_close_all,
  update_activity,
}
use mproxy.Udp.Session.Limits.{Owned}
use mproxy.Udp.Server.{
  Config, Server, Target, Event, arrives, works, serves, reads, cleans, cancels, forces, Incoming,
  no_deadline, timed_out, broken, received, Serving, PacketJob, stop_reader, is_running, take_nth,
  offer, hold, begin_packet, serve, work, reader_exit, read_result, read_round, clean, cancel,
  force, step, run,
}
use mproxy.Udp.Server.Steps.{IsServing, step-IsServing}
use mproxy.Udp.Server.Readers.{
  is_covered, HaveReaders, HaveReaders-mono, HaveReaders-exit, HaveReaders-insert,
  HaveReaders-delete, lookup-HaveReaders, is_awaited-append, take_nth-is_awaited,
  is_running-stop_reader,
}

-- The session that was made, if it is new, has what it needs.
abbrev CoversNew : (ℕ → Bool) → Created → Type 0
CoversNew q (session a is_new) = is_new ≡ true → q a ≡ true
CoversNew q (failed e) = Unit {0}

create-HaveReaders :
    (q : ℕ → Bool) (sm : SessionManager) (key target : String) (dial : DialResult) (id : String)
    (now : ℕ) (done : Bool)
    → lookup key sm.sessions ≡ none
    → HaveReaders q sm.sessions
    → let (sm', made) = create sm key target dial id now done in
      CoversNew q made → HaveReaders q sm'.sessions
unfolding create
create-HaveReaders q sm key target (unresolved e) id now done h r =
    rw (h, create) (ground (arith, r))
create-HaveReaders q sm key target (undialed e) id now done h r = rw (h, create) (ground (arith, r))
create-HaveReaders q sm key target (dialed b) id now done h r =
    rw (h, create) (ground (arith, r, HaveReaders-insert q key sm.next_address sm.sessions))

get_or_create-HaveReaders :
    (q : ℕ → Bool) (sm : SessionManager) (key target : String) (dial : DialResult) (id : String)
    (now : ℕ) (done : Bool)
    → HaveReaders q sm.sessions
    → let (sm', made) = get_or_create sm key target dial id now done in
      CoversNew q made → HaveReaders q sm'.sessions
unfolding get_or_create
get_or_create-HaveReaders q sm key target dial id now done r =
    elim (Option-cases (lookup key sm.sessions)) [
      | inl e ↦ rw (e, get_or_create) (create-HaveReaders q sm key target dial id now done e r)
      | inr (a, e) ↦ rw (e, get_or_create) (λ new. r)
    ]

abbrev HasReaders : {S W : Type 0} → Server S W → Type 0
HasReaders sv = HaveReaders (is_covered sv.readers sv.serving) sv.manager.sessions

module _ {S W : Type 0} (h : Handler S) (parser : Target → Parser S Bytes W) where
  held-HasReaders :
      (sv : Server S W) (sm : SessionManager) (made : Created) (datagram : Bytes)
      → ((q : ℕ → Bool)
          → HaveReaders q sv.manager.sessions
          → CoversNew q made
          → HaveReaders q sm.sessions)
      → HasReaders sv
      → HasReaders (hold h parser (record sv { manager = sm }) made datagram).0
  unfolding hold
  held-HasReaders sv sm (failed e) datagram k r = k (is_covered sv.readers sv.serving) r tt
  held-HasReaders sv sm (session a is_new) datagram k r =
      let j : Serving = record { address = a; is_new = is_new; datagram = datagram } in
      let q = is_covered sv.readers (sv.serving ++ j ∷ []) in
      k q
        (HaveReaders-mono (is_covered sv.readers sv.serving) q sv.manager.sessions
          (λ b is. ground (arith, is, is_awaited-append b sv.serving (j ∷ []))) r)
        (λ new. ground (arith, new, is_awaited-append a sv.serving (j ∷ [])))

  work-HasReaders :
      (sv : Server S W) (jobs : List PacketJob) (dial : DialResult) (id : String) (now : ℕ)
      (done : Bool)
      → HasReaders sv
      → HasReaders (work h parser sv jobs dial id now done)
  unfolding work begin_packet
  work-HasReaders sv [] dial id now done r = r
  work-HasReaders sv (job ∷ jobs) dial id now done r =
      let g = get_or_create sv.manager job.client_addr sv.config.target_address dial id now done in
      held-HasReaders (record sv { queue = jobs }) g.0 g.1 job.datagram
        (λ q.
          get_or_create-HaveReaders q sv.manager job.client_addr sv.config.target_address dial id
            now done)
        r

  serve-HasReaders :
      (sv : Server S W) (n : ℕ) (held : Option (Serving × List Serving))
      → take_nth n sv.serving ≡ held
      → HasReaders sv
      → HasReaders (serve h parser sv held)
  unfolding serve is_running
  serve-HasReaders sv n none e r = r
  serve-HasReaders sv n (some (held, rest)) e r =
      let readers = if held.is_new then held.address ∷ sv.readers else sv.readers in
      HaveReaders-mono (is_covered sv.readers sv.serving) (is_covered readers rest)
        sv.manager.sessions
        (λ b is. ground (arith, is, take_nth-is_awaited b n sv.serving held rest e)) r

  reader_exit-HasReaders :
      (sv : Server S W) (a : ℕ)
      → Owned sv.manager.heap sv.manager.next_address sv.manager.sessions
      → HasReaders sv
      → HasReaders (reader_exit h parser sv a)
  unfolding reader_exit remove
  reader_exit-HasReaders sv a o r =
      HaveReaders-exit (is_covered sv.readers sv.serving)
        (is_covered (stop_reader a sv.readers) sv.serving) sv.manager.heap sv.manager.next_address a
        sv.manager.sessions
        (λ b other is. ground (arith, is, is_running-stop_reader a b sv.readers other)) o r

  read_result-HasReaders :
      (sv : Server S W) (a : ℕ) (incoming : Incoming) (now : ℕ)
      → Owned sv.manager.heap sv.manager.next_address sv.manager.sessions
      → HasReaders sv
      → HasReaders (read_result h parser sv a incoming now)
  unfolding read_result update_activity
  read_result-HasReaders sv a (no_deadline e) now o r = reader_exit-HasReaders sv a o r
  read_result-HasReaders sv a timed_out now o r = ground (arith, r, reader_exit-HasReaders sv a o r)
  read_result-HasReaders sv a (broken e) now o r = reader_exit-HasReaders sv a o r
  read_result-HasReaders sv a (received datagram) now o r = r

  drop-HaveReaders :
      (q : ℕ → Bool) (sm : SessionManager) (s : S) (k : String) (a : ℕ)
      → HaveReaders q sm.sessions
      → HaveReaders q (drop_session h sm s k a).0.sessions
  unfolding drop_session
  drop-HaveReaders q sm s k a r = HaveReaders-delete q k sm.sessions r

  remove_one-HaveReaders :
      (q : ℕ → Bool) (sm : SessionManager) (s : S) (k : String)
      → HaveReaders q sm.sessions
      → HaveReaders q (remove_one h sm s k).0.sessions
  unfolding remove_one
  remove_one-HaveReaders q sm s k r = elim (Option-cases (lookup k sm.sessions)) [
    | inl e ↦ rw (e, remove_one) r
    | inr (a, e) ↦ rw (e, remove_one) (drop-HaveReaders q sm s k a r)
  ]

  remove_expired-HaveReaders :
      (q : ℕ → Bool) (sm : SessionManager) (s : S) (ks : List String)
      → HaveReaders q sm.sessions
      → HaveReaders q (remove_expired h sm s ks).0.sessions
  unfolding remove_expired
  remove_expired-HaveReaders q sm s [] r = r
  remove_expired-HaveReaders q sm s (k ∷ ks) r =
      let (sm', s') = remove_one h sm s k in
      remove_expired-HaveReaders q sm' s' ks (remove_one-HaveReaders q sm s k r)

  close_entries-HaveReaders :
      (q : ℕ → Bool) (sm : SessionManager) (s : S) (es : Dict ℕ)
      → HaveReaders q sm.sessions
      → HaveReaders q (close_entries h sm s es).0.sessions
  unfolding close_entries
  close_entries-HaveReaders q sm s [] r = r
  close_entries-HaveReaders q sm s ((k, a) ∷ es) r =
      let (sm', s') = drop_session h sm s k a in
      close_entries-HaveReaders q sm' s' es (drop-HaveReaders q sm s k a r)

  step-HasReaders :
      (sv : Server S W) (e : Event)
      → Owned sv.manager.heap sv.manager.next_address sv.manager.sessions
      → HasReaders sv
      → HasReaders (step h parser sv e)
  unfolding step read_round cancel clean force force_close_all offer
  step-HasReaders sv (arrives job) o r = ground (arith, r)
  step-HasReaders sv (works dial id now done) o r =
      ground (arith, r, work-HasReaders sv sv.queue dial id now done r)
  step-HasReaders sv (serves n) o r = serve-HasReaders sv n (take_nth n sv.serving) refl r
  step-HasReaders sv (reads a incoming now) o r =
      ground
        (arith, r, reader_exit-HasReaders sv a o r, read_result-HasReaders sv a incoming now o r)
  step-HasReaders sv (cleans ks) o r =
      remove_expired-HaveReaders (is_covered sv.readers sv.serving) sv.manager sv.state ks r
  step-HasReaders sv cancels o r = r
  step-HasReaders sv forces o r =
      close_entries-HaveReaders (is_covered sv.readers sv.serving) sv.manager sv.state
        sv.manager.sessions r

  run-HasReaders :
      (c : Config) (sv : Server S W) (es : List Event)
      → IsServing c sv
      → HasReaders sv
      → HasReaders (run h parser sv es)
  unfolding run
  run-HasReaders c sv [] v r = r
  run-HasReaders c sv (e ∷ es) v r =
      run-HasReaders c (step h parser sv e) es (step-IsServing h parser c sv e v)
        (step-HasReaders sv e v.sound.owned r)

  pub run-covered :
      (c : Config) (sv : Server S W) (es : List Event) (key : String) (a : ℕ)
      → IsServing c sv
      → HasReaders sv
      → let sv' = run h parser sv es in
        lookup key sv'.manager.sessions ≡ some a → is_covered sv'.readers sv'.serving a ≡ true
  run-covered c sv es key a v r =
      let sv' = run h parser sv es in
      lookup-HaveReaders (is_covered sv'.readers sv'.serving) key a sv'.manager.sessions
        (run-HasReaders c sv es v r)
