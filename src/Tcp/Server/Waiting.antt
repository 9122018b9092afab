-- ===== src/Tcp/Server/Waiting.antt =====
-- pkg/server/tcp/server.go: how long a connection is kept.
use mproxy.Prelude.{
  ℕ, ◌≡◌, String, Bool, true, false, not, ◌&&◌, Option, none, some, List, [], ◌∷◌, ◌++◌, arith,
  if◌then◌else◌, Option-cases, inl, inr, ◌==◌, All, sym, ◌∙◌,
}
use mproxy.Errors.{Err}
use mproxy.Handler.{Context, Handler}
use mproxy.Parser.{Direction, upstream, downstream, Parser}
use mproxy.Tcp.Connection.{
  Connection, Target, Started, Deadlines, handshake_failed, undialed, dialed, deadlines_set,
  context_done, read_deadline_failed, write_deadline_failed, is_done, find_conn, set_conn,
  drop_conn, fresh_connection, end_stream,
}
use mproxy.Tcp.Server.{
  Server, Event, accepts, starts, rounds, finishes, stops, times_out, accept, admit, end_conn,
  continue_or_end, start, start_conn, begin_streams, stream_round, stream_conn, finish, step, run,
  canceled,
}
use mproxy.Tcp.Server.Places.{id-find_conn, id-begin_streams}

unfoldable pub same_direction : Direction → Direction → Bool
same_direction upstream upstream = true
same_direction downstream downstream = true
same_direction _ _ = false

-- The connection is served, and its stream in this direction has not ended.
unfoldable pub is_open : ℕ → Direction → List Connection → Bool
is_open a dir [] = false
is_open a dir (c ∷ cs) = if c.id == a then c.streaming && not (is_done c dir) else is_open a dir cs

-- Not a round of this stream.
abbrev pub IsOther : {R : Type 0} → ℕ → Direction → Event R → Type 0
IsOther a dir (rounds b dir' deadlines r) = (b == a) && same_direction dir' dir ≡ false
IsOther a dir _ = Unit {0}

all_done :
    (c : Connection) (dir : Direction)
    → c.up_done ≡ true
    → c.down_done ≡ true
    → is_done c dir ≡ true
unfolding is_done
all_done c upstream u d = u
all_done c downstream u d = d

is_done-context :
    (dir : Direction) (c : Connection) (hctx : Context) (a : ℕ)
    → ((c.id == a) ≡ true → c.streaming && not (is_done c dir) ≡ true)
    → (c.id == a) ≡ true
    → c.streaming && not (is_done (record c { context = hctx }) dir) ≡ true
unfolding is_done
is_done-context upstream c hctx a k q = k q
is_done-context downstream c hctx a k q = k q

-- An error of a stream leaves what is said of a connection with that stream not meant.
end_stream-open :
    (a : ℕ) (dir dir' : Direction) (c : Connection) (e : Err)
    → ((c.id == a) && same_direction dir' dir) ≡ false
    → ((c.id == a) ≡ true → c.streaming && not (is_done c dir) ≡ true)
    → ((end_stream c dir' e).id == a) ≡ true
    → (end_stream c dir' e).streaming && not (is_done (end_stream c dir' e) dir) ≡ true
unfolding same_direction is_done end_stream
end_stream-open a upstream upstream c e n k q = ground (arith, k)
end_stream-open a upstream downstream c e n k q = ground (arith, k)
end_stream-open a downstream upstream c e n k q = ground (arith, k)
end_stream-open a downstream downstream c e n k q = ground (arith, k)

continue_or_end-open :
    {S R W : Type 0} (h : Handler S) (parser : Target → Parser S R W) (a : ℕ) (dir dir' : Direction)
    (forced : Bool) (c : Connection) (hctx : Context) (e : Option Err)
    → ((c.id == a) && same_direction dir' dir) ≡ false
    → ((c.id == a) ≡ true → c.streaming && not (is_done c dir) ≡ true)
    → let c' = continue_or_end h parser forced (record c { context = hctx }) dir' e in
      (c'.id == a) ≡ true → c'.streaming && not (is_done c' dir) ≡ true
unfolding continue_or_end is_done
continue_or_end-open h parser a dir dir' forced c hctx (some e) n k q =
    end_stream-open a dir dir' (record c { context = hctx }) e n (is_done-context dir c hctx a k) q
continue_or_end-open h parser a dir dir' true c hctx none n k q =
    end_stream-open a dir dir' (record c { context = hctx }) canceled n
      (is_done-context dir c hctx a k) q
continue_or_end-open h parser a dir dir' false c hctx none n k q = is_done-context dir c hctx a k q

module _ (a : ℕ) (dir : Direction) where
  is_open-append :
      (cs ds : List Connection) → is_open a dir cs ≡ true → is_open a dir (cs ++ ds) ≡ true
  unfolding is_open
  is_open-append [] ds h = cc
  is_open-append (c ∷ cs) ds h = ground (arith, is_open-append cs ds)

  pub is_open-find_conn :
      (b : ℕ) (c : Connection) (cs : List Connection)
      → b ≡ a
      → find_conn b cs ≡ some c
      → is_open a dir cs ≡ (c.streaming && not (is_done c dir))
  unfolding is_open find_conn
  is_open-find_conn b c [] i e = cc
  is_open-find_conn b c (d ∷ ds) i e = ground (arith, is_open-find_conn b c ds i)

  is_open-set_conn :
      (c : Connection) (cs : List Connection)
      → ((c.id == a) ≡ true → c.streaming && not (is_done c dir) ≡ true)
      → is_open a dir cs ≡ true
      → is_open a dir (set_conn c cs) ≡ true
  unfolding is_open set_conn
  is_open-set_conn c [] k h = cc
  is_open-set_conn c (d ∷ ds) k h = ground (arith, k, is_open-set_conn c ds k)

  is_open-drop_conn :
      (b : ℕ) (cs : List Connection)
      → (b == a) ≡ false
      → is_open a dir cs ≡ true
      → is_open a dir (drop_conn b cs) ≡ true
  unfolding is_open drop_conn
  is_open-drop_conn b [] n h = cc
  is_open-drop_conn b (c ∷ cs) n h = ground (arith, is_open-drop_conn b cs n)

  module _ {S W : Type 0} where
    accept-open :
        (sv : Server S W) (remote_addr id : String) (configured : Option Err)
        → is_open a dir sv.conns ≡ true
        → is_open a dir (accept sv remote_addr id configured).conns ≡ true
    unfolding accept admit
    accept-open sv remote_addr id configured o =
        ground
          (arith, o, is_open-append sv.conns (fresh_connection sv.next_id remote_addr id ∷ []) o)

    started-open :
        (sv : Server S W) (c : Connection) (result : Started)
        → (c.id == a) ≡ false
        → is_open a dir sv.conns ≡ true
        → is_open a dir (start_conn sv c result).conns ≡ true
    unfolding start_conn end_conn
    started-open sv c (handshake_failed e) n o = is_open-drop_conn c.id sv.conns n o
    started-open sv c (undialed e) n o = is_open-drop_conn c.id sv.conns n o
    started-open sv c (dialed cert) n o =
        let d : Connection = record c {
          streaming = true;
          context = record c.context { cert = cert };
        } in
        is_open-set_conn (begin_streams sv.forced d) sv.conns
          (λ k. ground (arith, n, k, id-begin_streams sv.forced d)) o

    start-open :
        (sv : Server S W) (b : ℕ) (result : Started)
        → is_open a dir sv.conns ≡ true
        → is_open a dir (start sv b result).conns ≡ true
    unfolding start
    start-open sv b result o = elim (Option-cases (find_conn b sv.conns)) [
      | inl e ↦ rw (e, start) o
      | inr (c, e) ↦
          rw (e, start)
            (ground (
              arith,
              o,
              id-find_conn b c sv.conns e,
              started-open sv c result,
              is_open-find_conn b c sv.conns,
            ))
    ]

    module _ {R : Type 0} (h : Handler S) (parser : Target → Parser S R W) where
      streamed-open :
          (sv : Server S W) (c : Connection) (dir' : Direction) (deadlines : Deadlines) (r : R)
          → ((c.id == a) && same_direction dir' dir) ≡ false
          → ((c.id == a) ≡ true → c.streaming && not (is_done c dir) ≡ true)
          → is_open a dir sv.conns ≡ true
          → is_open a dir (stream_conn h parser sv c dir' deadlines r).conns ≡ true
      unfolding stream_conn
      streamed-open sv c dir' (read_deadline_failed e) r n k o =
          is_open-set_conn _ sv.conns (end_stream-open a dir dir' c _ n k) o
      streamed-open sv c dir' (write_deadline_failed e) r n k o =
          is_open-set_conn _ sv.conns (end_stream-open a dir dir' c _ n k) o
      streamed-open sv c dir' context_done r n k o =
          ground
            (arith, o, is_open-set_conn _ sv.conns (end_stream-open a dir dir' c canceled n k) o)
      streamed-open sv c dir' deadlines_set r n k o =
          is_open-set_conn _ sv.conns (continue_or_end-open h parser a dir dir' sv.forced c _ _ n k)
            o

      round-open :
          (sv : Server S W) (b : ℕ) (dir' : Direction) (deadlines : Deadlines) (r : R)
          → ((b == a) && same_direction dir' dir) ≡ false
          → is_open a dir sv.conns ≡ true
          → is_open a dir (stream_round h parser sv b dir' deadlines r).conns ≡ true
      unfolding stream_round
      round-open sv b dir' deadlines r n o = elim (Option-cases (find_conn b sv.conns)) [
        | inl e ↦ rw (e, stream_round) o
        | inr (c, e) ↦
            let same = id-find_conn b c sv.conns e in
            let n' : ((c.id == a) && same_direction dir' dir) ≡ false = ground (arith, n, same) in
            let k : ((c.id == a) ≡ true → c.streaming && not (is_done c dir) ≡ true) =
              λ q. sym (is_open-find_conn b c sv.conns (ground (arith, q, same)) e) ∙ o in
            rw (e, stream_round) (ground (arith, o, streamed-open sv c dir' deadlines r n' k o))
      ]

      finish-open :
          (sv : Server S W) (b : ℕ)
          → is_open a dir sv.conns ≡ true
          → is_open a dir (finish h parser sv b).conns ≡ true
      unfolding finish end_conn
      finish-open sv b o = elim (Option-cases (find_conn b sv.conns)) [
        | inl e ↦ rw (e, finish) o
        | inr (c, e) ↦
            rw (e, finish)
              (ground (
                arith,
                o,
                all_done c dir,
                is_open-drop_conn b sv.conns,
                is_open-find_conn b c sv.conns,
              ))
      ]

      step-open :
          (sv : Server S W) (e : Event R)
          → IsOther a dir e
          → is_open a dir sv.conns ≡ true
          → is_open a dir (step h parser sv e).conns ≡ true
      unfolding step
      step-open sv (accepts remote_addr id configured) i o =
          accept-open sv remote_addr id configured o
      step-open sv (starts b result) i o = start-open sv b result o
      step-open sv (rounds b dir' deadlines r) i o = round-open sv b dir' deadlines r i o
      step-open sv (finishes b) i o = finish-open sv b o
      step-open sv stops i o = o
      step-open sv times_out i o = o

      -- A connection is kept until both of its streams have ended: as long as one of them makes no
      -- round, no other event closes it or lets its `handleConn` return, neither the end of its
      -- other stream nor the shutdown with its timer.
      pub run-open :
          (sv : Server S W) (es : List (Event R))
          → All (IsOther a dir) es
          → is_open a dir sv.conns ≡ true
          → is_open a dir (run h parser sv es).conns ≡ true
      unfolding run
      run-open sv [] i o = o
      run-open sv (e ∷ es) i o = run-open (step h parser sv e) es i.1 (step-open sv e i.0 o)
