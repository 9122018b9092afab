-- ===== src/Tcp/Server/Limits.antt =====
-- pkg/server/tcp/server.go: how many connections there are.
use mproxy.Prelude.{
  ℕ, suc, ◌+◌, ◌≡◌, refl, String, Option, some, List, [], ◌∷◌, arith, length, length-append,
  Option-cases, inl, inr, ap, ◌∙◌, ltb, if◌then◌else◌,
}
use mproxy.Prelude.Int.{ℤ, pos, ◌≤ℤ◌, ◌<ℤ◌}
use mproxy.Errors.{Err}
use mproxy.Handler.{Handler}
use mproxy.Parser.{Direction, Parser}
use mproxy.Tcp.Connection.{
  Connection, Target, Started, Deadlines, handshake_failed, undialed, dialed, deadlines_set,
  context_done, read_deadline_failed, write_deadline_failed, find_conn, set_conn, drop_conn,
  fresh_connection, end_stream,
}
use mproxy.Tcp.Server.Places.{id-find_conn, served, returned, run-IsPlaced}
use mproxy.Tcp.Server.{
  Config, Server, Event, accepts, starts, rounds, finishes, stops, times_out, is_limited, new,
  accept, end_conn, start, start_conn, stream_round, stream_conn, canceled, with_defaults, finish,
  step, run,
}

length-set_conn : (c : Connection) (cs : List Connection) → length (set_conn c cs) ≡ length cs
unfolding set_conn
length-set_conn c [] = refl
length-set_conn c (d ∷ ds) = ground (arith, length-set_conn c ds)

length-drop_conn :
    (a : ℕ) (c : Connection) (cs : List Connection)
    → find_conn a cs ≡ some c
    → suc (length (drop_conn a cs)) ≡ length cs
unfolding drop_conn find_conn
length-drop_conn a c [] e = cc
length-drop_conn a c (d ∷ ds) e = ground (arith, length-drop_conn a c ds)

-- What the numbers of a server are to each other.
pub record IsBounded {S W : Type 0} (k : ℤ) (sv : Server S W) : Type 0 where
  pub max : sv.config.max_connections ≡ k
  pub slots_eq : pos 0 <ℤ k → sv.slots ≡ length sv.conns
  pub limit : pos 0 <ℤ k → pos (length sv.conns) ≤ℤ k
  pub total : sv.next_id ≡ length sv.conns + length sv.results

module _ {S W : Type 0} (k : ℤ) where
  accept-IsBounded :
      (sv : Server S W) (remote_addr id : String) (configured : Option Err)
      → IsBounded k sv
      → IsBounded k (accept sv remote_addr id configured)
  unfolding accept is_limited
  accept-IsBounded sv remote_addr id configured v =
      ground (arith, v, length-append sv.conns (fresh_connection sv.next_id remote_addr id ∷ []))

  end_conn-IsBounded :
      (sv : Server S W) (a : ℕ) (c : Connection) (result : Option Err)
      → find_conn a sv.conns ≡ some c
      → IsBounded k sv
      → IsBounded k (end_conn sv a result)
  unfolding end_conn is_limited
  end_conn-IsBounded sv a c result e v = ground (arith, v, length-drop_conn a c sv.conns e)

  -- Only the connections of the list change, and their number stays.
  changed-IsBounded :
      (sv : Server S W) (s : S) (w : W) (c : Connection)
      → IsBounded k sv
      → IsBounded k (record sv { conns = set_conn c sv.conns; state = s; net = w })
  changed-IsBounded sv s w c v = ground (arith, v, length-set_conn c sv.conns)

  started-IsBounded :
      (sv : Server S W) (c : Connection) (result : Started)
      → find_conn c.id sv.conns ≡ some c
      → IsBounded k sv
      → IsBounded k (start_conn sv c result)
  unfolding start_conn
  started-IsBounded sv c (handshake_failed e) f v = end_conn-IsBounded sv c.id c _ f v
  started-IsBounded sv c (undialed e) f v = end_conn-IsBounded sv c.id c _ f v
  started-IsBounded sv c (dialed cert) f v = changed-IsBounded sv sv.state sv.net _ v

  start-IsBounded :
      (sv : Server S W) (a : ℕ) (result : Started)
      → IsBounded k sv
      → IsBounded k (start sv a result)
  unfolding start
  start-IsBounded sv a result v = elim (Option-cases (find_conn a sv.conns)) [
    | inl e ↦ rw (e, start) v
    | inr (c, e) ↦
        let same = id-find_conn a c sv.conns e in
        rw (e, start)
          (ground
            (arith, v, started-IsBounded sv c result (ap (λ b. find_conn b sv.conns) same ∙ e) v))
  ]

  module _ {R : Type 0} (h : Handler S) (parser : Target → Parser S R W) where
    streamed-IsBounded :
        (sv : Server S W) (c : Connection) (dir : Direction) (deadlines : Deadlines) (r : R)
        → IsBounded k sv
        → IsBounded k (stream_conn h parser sv c dir deadlines r)
    unfolding stream_conn
    streamed-IsBounded sv c dir (read_deadline_failed e) r v =
        changed-IsBounded sv sv.state sv.net _ v
    streamed-IsBounded sv c dir (write_deadline_failed e) r v =
        changed-IsBounded sv sv.state sv.net _ v
    streamed-IsBounded sv c dir context_done r v =
        ground (arith, v, changed-IsBounded sv sv.state sv.net (end_stream c dir canceled) v)
    streamed-IsBounded sv c dir deadlines_set r v = changed-IsBounded sv _ _ _ v

    round-IsBounded :
        (sv : Server S W) (a : ℕ) (dir : Direction) (deadlines : Deadlines) (r : R)
        → IsBounded k sv
        → IsBounded k (stream_round h parser sv a dir deadlines r)
    unfolding stream_round
    round-IsBounded sv a dir deadlines r v = elim (Option-cases (find_conn a sv.conns)) [
      | inl e ↦ rw (e, stream_round) v
      | inr (c, e) ↦
          rw (e, stream_round) (ground (arith, v, streamed-IsBounded sv c dir deadlines r v))
    ]

    finish-IsBounded :
        (sv : Server S W) (a : ℕ) → IsBounded k sv → IsBounded k (finish h parser sv a)
    unfolding finish
    finish-IsBounded sv a v = elim (Option-cases (find_conn a sv.conns)) [
      | inl e ↦ rw (e, finish) v
      | inr (c, e) ↦
          rw (e, finish)
            (ground (
              arith,
              v,
              end_conn-IsBounded (record sv { state = (h.on_disconnect sv.state c.context).0 }) a c
                  c.stream_err e
                  (record { max = v.max; slots_eq = v.slots_eq; limit = v.limit; total = v.total }),
            ))
    ]

    step-IsBounded :
        (sv : Server S W) (e : Event R) → IsBounded k sv → IsBounded k (step h parser sv e)
    unfolding step
    step-IsBounded sv (accepts remote_addr id configured) v =
        accept-IsBounded sv remote_addr id configured v
    step-IsBounded sv (starts a result) v = start-IsBounded sv a result v
    step-IsBounded sv (rounds a dir deadlines r) v = round-IsBounded sv a dir deadlines r v
    step-IsBounded sv (finishes a) v = finish-IsBounded sv a v
    step-IsBounded sv stops v = ground (arith, v)
    step-IsBounded sv times_out v = ground (arith, v)

    run-IsBounded :
        (sv : Server S W) (es : List (Event R)) → IsBounded k sv → IsBounded k (run h parser sv es)
    unfolding run
    run-IsBounded sv [] v = v
    run-IsBounded sv (e ∷ es) v = run-IsBounded (step h parser sv e) es (step-IsBounded sv e v)

-- After any events of a server whose `MaxConnections` is positive, the semaphore holds exactly the
-- connections that are served, and these are no more than `MaxConnections`. A connection that was ever
-- admitted is either served, once, or has returned its result, once, and no other is or has; so as
-- many were admitted as are served or have returned.
pub run-connections :
    {S R W : Type 0} (h : Handler S) (parser : Target → Parser S R W) (c : Config) (s : S) (w : W)
    (es : List (Event R))
    → pos 0 <ℤ c.max_connections
    → let sv = run h parser (new c s w) es in
      (sv.slots ≡ length sv.conns)
      × (pos (length sv.conns) ≤ℤ c.max_connections)
      × (sv.next_id ≡ length sv.conns + length sv.results)
      × ((a : ℕ) → served a sv.conns + returned a sv.results ≡ (if ltb a sv.next_id then 1 else 0))
unfolding new with_defaults
run-connections h parser c s w es p =
    let v = run-IsBounded c.max_connections h parser (new c s w) es (record {
      max = refl;
      slots_eq = λ q. refl;
      limit = λ q. ground (arith, p);
      total = omega arith;
    }) in
    (v.slots_eq p, v.limit p, v.total, λ a. run-IsPlaced a h parser (new c s w) es (ground arith))
