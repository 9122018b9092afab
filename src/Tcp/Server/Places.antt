-- ===== src/Tcp/Server/Places.antt =====
-- pkg/server/tcp/server.go: where each connection that was admitted is.
use mproxy.Prelude.{
  ℕ, ◌+◌, ◌≡◌, refl, String, Option, some, List, [], ◌∷◌, ◌++◌, arith, Option-cases, inl, inr, ap,
  ◌∙◌, ◌==◌, ltb, Bool, true, false, if◌then◌else◌,
}
use mproxy.Errors.{Err}
use mproxy.Handler.{Handler}
use mproxy.Parser.{Direction, Parser}
use mproxy.Tcp.Connection.{
  Connection, Target, Started, Deadlines, handshake_failed, undialed, dialed, deadlines_set,
  context_done, read_deadline_failed, write_deadline_failed, find_conn, set_conn, drop_conn,
  fresh_connection, end_stream,
}
use mproxy.Tcp.Server.{
  Server, Event, accepts, starts, rounds, finishes, stops, times_out, accept, end_conn, start,
  start_conn, begin_streams, stream_round, stream_conn, canceled, finish, step, run,
}

pub id-find_conn :
    (a : ℕ) (c : Connection) (cs : List Connection) → find_conn a cs ≡ some c → c.id ≡ a
unfolding find_conn
id-find_conn a c [] e = cc
id-find_conn a c (d ∷ ds) e = ground (arith, id-find_conn a c ds)

pub id-begin_streams : (forced : Bool) (c : Connection) → (begin_streams forced c).id ≡ c.id
unfolding begin_streams end_stream
id-begin_streams true c = refl
id-begin_streams false c = refl

-- How often a connection is served, and how often it has returned a result.
abbrev pub served : ℕ → List Connection → ℕ
served a [] = 0
served a (c ∷ cs) = (if c.id == a then 1 else 0) + served a cs

abbrev pub returned : ℕ → List (ℕ × Option Err) → ℕ
returned a [] = 0
returned a ((b, e) ∷ rs) = (if b == a then 1 else 0) + returned a rs

-- A connection that was admitted has one place, and no other has any.
abbrev pub IsPlaced : {S W : Type 0} → ℕ → Server S W → Type 0
IsPlaced a sv = served a sv.conns + returned a sv.results ≡ (if ltb a sv.next_id then 1 else 0)

module _ (a : ℕ) where
  served-append : (cs ds : List Connection) → served a (cs ++ ds) ≡ served a cs + served a ds
  served-append [] ds = omega arith
  served-append (c ∷ cs) ds = omega (arith, served-append cs ds)

  served-set_conn : (c : Connection) (cs : List Connection) → served a (set_conn c cs) ≡ served a cs
  unfolding set_conn
  served-set_conn c [] = refl
  served-set_conn c (d ∷ ds) = ground (arith, served-set_conn c ds)

  served-drop_conn :
      (b : ℕ) (c : Connection) (cs : List Connection)
      → find_conn b cs ≡ some c
      → (if b == a then 1 else 0) + served a (drop_conn b cs) ≡ served a cs
  unfolding drop_conn find_conn
  served-drop_conn b c [] e = cc
  served-drop_conn b c (d ∷ ds) e = ground (arith, served-drop_conn b c ds)

  module _ {S W : Type 0} where
    accept-IsPlaced :
        (sv : Server S W) (remote_addr id : String) (configured : Option Err)
        → IsPlaced a sv
        → IsPlaced a (accept sv remote_addr id configured)
    unfolding accept
    accept-IsPlaced sv remote_addr id configured v =
        ground (arith, v, served-append sv.conns (fresh_connection sv.next_id remote_addr id ∷ []))

    end_conn-IsPlaced :
        (sv : Server S W) (b : ℕ) (c : Connection) (result : Option Err)
        → find_conn b sv.conns ≡ some c
        → IsPlaced a sv
        → IsPlaced a (end_conn sv b result)
    unfolding end_conn
    end_conn-IsPlaced sv b c result e v = ground (arith, v, served-drop_conn b c sv.conns e)

    changed-IsPlaced :
        (sv : Server S W) (s : S) (w : W) (c : Connection)
        → IsPlaced a sv
        → IsPlaced a (record sv { conns = set_conn c sv.conns; state = s; net = w })
    changed-IsPlaced sv s w c v = ground (arith, v, served-set_conn c sv.conns)

    started-IsPlaced :
        (sv : Server S W) (c : Connection) (result : Started)
        → find_conn c.id sv.conns ≡ some c
        → IsPlaced a sv
        → IsPlaced a (start_conn sv c result)
    unfolding start_conn
    started-IsPlaced sv c (handshake_failed e) f v = end_conn-IsPlaced sv c.id c _ f v
    started-IsPlaced sv c (undialed e) f v = end_conn-IsPlaced sv c.id c _ f v
    started-IsPlaced sv c (dialed cert) f v = changed-IsPlaced sv sv.state sv.net _ v

    start-IsPlaced :
        (sv : Server S W) (b : ℕ) (result : Started)
        → IsPlaced a sv
        → IsPlaced a (start sv b result)
    unfolding start
    start-IsPlaced sv b result v = elim (Option-cases (find_conn b sv.conns)) [
      | inl e ↦ rw (e, start) v
      | inr (c, e) ↦
          let same = id-find_conn b c sv.conns e in
          rw (e, start)
            (ground
              (arith, v, started-IsPlaced sv c result (ap (λ x. find_conn x sv.conns) same ∙ e) v))
    ]

    module _ {R : Type 0} (h : Handler S) (parser : Target → Parser S R W) where
      streamed-IsPlaced :
          (sv : Server S W) (c : Connection) (dir : Direction) (deadlines : Deadlines) (r : R)
          → IsPlaced a sv
          → IsPlaced a (stream_conn h parser sv c dir deadlines r)
      unfolding stream_conn
      streamed-IsPlaced sv c dir (read_deadline_failed e) r v =
          changed-IsPlaced sv sv.state sv.net _ v
      streamed-IsPlaced sv c dir (write_deadline_failed e) r v =
          changed-IsPlaced sv sv.state sv.net _ v
      streamed-IsPlaced sv c dir context_done r v =
          ground (arith, v, changed-IsPlaced sv sv.state sv.net (end_stream c dir canceled) v)
      streamed-IsPlaced sv c dir deadlines_set r v =
          ap (λ n. n + returned a sv.results) (served-set_conn _ sv.conns) ∙ v

      round-IsPlaced :
          (sv : Server S W) (b : ℕ) (dir : Direction) (deadlines : Deadlines) (r : R)
          → IsPlaced a sv
          → IsPlaced a (stream_round h parser sv b dir deadlines r)
      unfolding stream_round
      round-IsPlaced sv b dir deadlines r v = elim (Option-cases (find_conn b sv.conns)) [
        | inl e ↦ rw (e, stream_round) v
        | inr (c, e) ↦
            rw (e, stream_round) (ground (arith, v, streamed-IsPlaced sv c dir deadlines r v))
      ]

      finish-IsPlaced :
          (sv : Server S W) (b : ℕ) → IsPlaced a sv → IsPlaced a (finish h parser sv b)
      unfolding finish
      finish-IsPlaced sv b v = elim (Option-cases (find_conn b sv.conns)) [
        | inl e ↦ rw (e, finish) v
        | inr (c, e) ↦
            rw (e, finish)
              (ground (
                arith,
                v,
                end_conn-IsPlaced (record sv { state = (h.on_disconnect sv.state c.context).0 }) b c
                    c.stream_err e v,
              ))
      ]

      step-IsPlaced :
          (sv : Server S W) (e : Event R) → IsPlaced a sv → IsPlaced a (step h parser sv e)
      unfolding step
      step-IsPlaced sv (accepts remote_addr id configured) v =
          accept-IsPlaced sv remote_addr id configured v
      step-IsPlaced sv (starts b result) v = start-IsPlaced sv b result v
      step-IsPlaced sv (rounds b dir deadlines r) v = round-IsPlaced sv b dir deadlines r v
      step-IsPlaced sv (finishes b) v = finish-IsPlaced sv b v
      step-IsPlaced sv stops v = v
      step-IsPlaced sv times_out v = v

      pub run-IsPlaced :
          (sv : Server S W) (es : List (Event R)) → IsPlaced a sv → IsPlaced a (run h parser sv es)
      unfolding run
      run-IsPlaced sv [] v = v
      run-IsPlaced sv (e ∷ es) v = run-IsPlaced (step h parser sv e) es (step-IsPlaced sv e v)
