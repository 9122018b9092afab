-- ===== src/Udp/Server/Steps.antt =====
-- pkg/server/udp/server.go: each step of the server's goroutines keeps what holds of the sessions.
use mproxy.Prelude.{
  ℕ, ◌≡◌, refl, String, Bool, true, List, [], ◌∷◌, arith, Option, none, some, Option-cases, inl,
  inr, length, ◌∙◌, length-append,
}
use mproxy.Prelude.Int.{pos, ◌≤ℤ◌}
use mproxy.Prelude.Maps.{Dict, lookup}
use mproxy.Handler.{Bytes, Context, Handler}
use mproxy.Parser.{Parser}
use mproxy.Udp.Session.{
  Session, SessionManager, DialResult, unresolved, undialed, dialed, Created, session, failed,
  create, get_or_create, remove, update_activity, close_session, drop_session, remove_one,
  remove_expired, close_entries, force_close_all,
}
use mproxy.Udp.Session.Limits.{Owned, IsSound, get_or_create-IsSound, remove-IsSound, store-Owned}
use mproxy.Udp.Session.Entries.{drop-IsSound}
use mproxy.Udp.Server.{
  cancel, cancels, Config, capacity, Server, Target, Event, arrives, works, reads, cleans, forces,
  Incoming, no_deadline, timed_out, broken, received, set_context, offer, begin_packet, reader_exit,
  hold, serve, serves, take_nth, Serving, read_result, read_round, work, clean, force, step, run,
  PacketJob,
}

-- The configuration stays, and the channel holds no more than it can.
abbrev pub Settled : {S W : Type 0} → Config → Server S W → Type 0
Settled c sv =
    (sv.config ≡ c)
    × (sv.manager.max_sessions ≡ c.max_sessions)
    × (pos (length sv.queue) ≤ℤ capacity c)

pub record IsServing {S W : Type 0} (c : Config) (sv : Server S W) : Type 0 where
  pub settled : Settled c sv
  pub sound : IsSound sv.manager

update_activity-IsSound :
    (sm : SessionManager) (a now : ℕ) → IsSound sm → IsSound (update_activity sm a now)
unfolding update_activity
update_activity-IsSound sm a now v = record {
  distinct = v.distinct;
  owned = store-Owned sm.heap a sm.next_address _ sm.sessions (inr refl) v.owned;
  limit = v.limit;
}

remote_addr-close_session : (s : Session) → (close_session s).remote_addr ≡ s.remote_addr
unfolding close_session
remote_addr-close_session s = ground arith

-- A session may get another context.
set_context-IsSound :
    (sm : SessionManager) (a : ℕ) (c : Context) → IsSound sm → IsSound (set_context sm a c)
set_context-IsSound sm a c v = record {
  distinct = v.distinct;
  owned = store-Owned sm.heap a sm.next_address _ sm.sessions (inr refl) v.owned;
  limit = v.limit;
}

get_or_create-max :
    (sm : SessionManager) (key target : String) (dial : DialResult) (id : String) (now : ℕ)
    (done : Bool)
    → (get_or_create sm key target dial id now done).0.max_sessions ≡ sm.max_sessions
unfolding get_or_create create
get_or_create-max sm key target (unresolved e) id now done = ground arith
get_or_create-max sm key target (undialed e) id now done = ground arith
get_or_create-max sm key target (dialed b) id now done = ground arith

cancel-Owned :
    (heap : ℕ → Session) (n : ℕ) (m : Dict ℕ)
    → Owned heap n m
    → Owned (λ a. record (heap a) { cancelled = true }) n m
cancel-Owned heap n [] o = tt
cancel-Owned heap n ((k, a) ∷ m) o = (o.0, o.1, cancel-Owned heap n m o.2)

module _ {S W : Type 0} (h : Handler S) (parser : Target → Parser S Bytes W) (c : Config) where
  held-IsServing :
      (sv : Server S W) (sm : SessionManager) (made : Created) (datagram : Bytes)
      → Settled c (record sv { manager = sm })
      → IsSound sm
      → IsServing c (hold h parser (record sv { manager = sm }) made datagram).0
  unfolding hold
  held-IsServing sv sm (session a is_new) datagram k v = record { settled = k; sound = v }
  held-IsServing sv sm (failed e) datagram k v = record { settled = k; sound = v }

  begin_packet-IsServing :
      (sv : Server S W) (job : PacketJob) (dial : DialResult) (id : String) (now : ℕ) (done : Bool)
      → IsServing c sv
      → IsServing c (begin_packet h parser sv job dial id now done).0
  unfolding begin_packet
  begin_packet-IsServing sv job dial id now done v =
      let g = get_or_create sv.manager job.client_addr sv.config.target_address dial id now done in
      let kept =
        get_or_create-max sv.manager job.client_addr sv.config.target_address dial id now done in
      held-IsServing sv g.0 g.1 job.datagram (v.settled.0, kept ∙ v.settled.1, v.settled.2)
        (get_or_create-IsSound sv.manager job.client_addr sv.config.target_address dial id now done
          v.sound)

  serve-IsServing :
      (sv : Server S W) (held : Option (Serving × List Serving))
      → IsServing c sv
      → IsServing c (serve h parser sv held)
  unfolding serve
  serve-IsServing sv none v = v
  serve-IsServing sv (some (held, rest)) v = record {
    settled = v.settled;
    sound = set_context-IsSound sv.manager held.address _ v.sound;
  }

  reader_exit-IsServing :
      (sv : Server S W) (a : ℕ) → IsServing c sv → IsServing c (reader_exit h parser sv a)
  unfolding reader_exit remove
  reader_exit-IsServing sv a v =
      let w = remove-IsSound sv.manager (sv.manager.heap a).remote_addr v.sound in
      record {
        settled = v.settled;
        sound = record {
          distinct = w.distinct;
          owned =
              store-Owned sv.manager.heap a sv.manager.next_address _
                (remove sv.manager (sv.manager.heap a).remote_addr).sessions
                (inr (remote_addr-close_session _)) w.owned;
          limit = w.limit;
        };
      }

  read_result-IsServing :
      (sv : Server S W) (a : ℕ) (incoming : Incoming) (now : ℕ)
      → IsServing c sv
      → IsServing c (read_result h parser sv a incoming now)
  unfolding read_result update_activity
  read_result-IsServing sv a (no_deadline e) now v = reader_exit-IsServing sv a v
  read_result-IsServing sv a timed_out now v = ground (arith, v, reader_exit-IsServing sv a v)
  read_result-IsServing sv a (broken e) now v = reader_exit-IsServing sv a v
  read_result-IsServing sv a (received datagram) now v = record {
    settled = v.settled;
    sound =
        set_context-IsSound (update_activity sv.manager a now) a _
          (update_activity-IsSound sv.manager a now v.sound);
  }

  work-IsServing :
      (sv : Server S W) (jobs : List PacketJob) (dial : DialResult) (id : String) (now : ℕ)
      (done : Bool)
      → pos (length jobs) ≤ℤ capacity c
      → IsServing c sv
      → IsServing c (work h parser sv jobs dial id now done)
  unfolding work
  work-IsServing sv [] dial id now done q v = v
  work-IsServing sv (job ∷ jobs) dial id now done q v =
      begin_packet-IsServing (record sv { queue = jobs }) job dial id now done
        (record { settled = (v.settled.0, v.settled.1, ground (arith, q)); sound = v.sound })

  -- The sessions are sound and have the limit that they had.
  abbrev Keeps : SessionManager → SessionManager → Type 0
  Keeps sm sm' = IsSound sm' × (sm'.max_sessions ≡ sm.max_sessions)

  drop-Keeps :
      (sm : SessionManager) (s : S) (k : String) (a : ℕ)
      → IsSound sm
      → Keeps sm (drop_session h sm s k a).0
  unfolding drop_session
  drop-Keeps sm s k a v = (drop-IsSound h sm s k a v, refl)

  remove_one-Keeps :
      (sm : SessionManager) (s : S) (k : String) → IsSound sm → Keeps sm (remove_one h sm s k).0
  unfolding remove_one
  remove_one-Keeps sm s k v = elim (Option-cases (lookup k sm.sessions)) [
    | inl e ↦ rw (e, remove_one) (v, refl)
    | inr (a, e) ↦ rw (e, remove_one) (drop-Keeps sm s k a v)
  ]

  remove_expired-Keeps :
      (sm : SessionManager) (s : S) (ks : List String)
      → IsSound sm
      → Keeps sm (remove_expired h sm s ks).0
  unfolding remove_expired
  remove_expired-Keeps sm s [] v = (v, refl)
  remove_expired-Keeps sm s (k ∷ ks) v =
      let (sm', s') = remove_one h sm s k in
      let one = remove_one-Keeps sm s k v in
      let rest = remove_expired-Keeps sm' s' ks one.0 in (rest.0, rest.1 ∙ one.1)

  close_entries-Keeps :
      (sm : SessionManager) (s : S) (es : Dict ℕ)
      → IsSound sm
      → Keeps sm (close_entries h sm s es).0
  unfolding close_entries
  close_entries-Keeps sm s [] v = (v, refl)
  close_entries-Keeps sm s ((k, a) ∷ es) v =
      let (sm', s') = drop_session h sm s k a in
      let one = drop-Keeps sm s k a v in
      let rest = close_entries-Keeps sm' s' es one.0 in (rest.0, rest.1 ∙ one.1)

  offer-IsServing :
      (sv : Server S W) (job : PacketJob) → IsServing c sv → IsServing c (offer sv job)
  unfolding offer
  offer-IsServing sv job v = record {
    settled =
        rw (v.settled.0)
          (ground (arith, v.settled.1, v.settled.2, length-append sv.queue (job ∷ [])));
    sound = ground (arith, v.sound);
  }

  pub step-IsServing :
      (sv : Server S W) (e : Event) → IsServing c sv → IsServing c (step h parser sv e)
  unfolding step read_round cancel clean force force_close_all
  step-IsServing sv (arrives job) v = offer-IsServing sv job v
  step-IsServing sv (works dial id now done) v =
      ground (arith, v, work-IsServing sv sv.queue dial id now done v.settled.2 v)
  step-IsServing sv (serves n) v = serve-IsServing sv (take_nth n sv.serving) v
  step-IsServing sv (reads a incoming now) v =
      ground (arith, v, reader_exit-IsServing sv a v, read_result-IsServing sv a incoming now v)
  step-IsServing sv (cleans ks) v =
      let k = remove_expired-Keeps sv.manager sv.state ks v.sound in
      record { settled = (v.settled.0, k.1 ∙ v.settled.1, v.settled.2); sound = k.0 }
  step-IsServing sv cancels v = record {
    settled = v.settled;
    sound = record {
      distinct = v.sound.distinct;
      owned =
          cancel-Owned sv.manager.heap sv.manager.next_address sv.manager.sessions v.sound.owned;
      limit = v.sound.limit;
    };
  }
  step-IsServing sv forces v =
      let k = close_entries-Keeps sv.manager sv.state sv.manager.sessions v.sound in
      record { settled = (v.settled.0, k.1 ∙ v.settled.1, v.settled.2); sound = k.0 }

  pub run-IsServing :
      (sv : Server S W) (es : List Event) → IsServing c sv → IsServing c (run h parser sv es)
  unfolding run
  run-IsServing sv [] v = v
  run-IsServing sv (e ∷ es) v = run-IsServing (step h parser sv e) es (step-IsServing sv e v)
