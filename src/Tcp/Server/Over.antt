-- ===== src/Tcp/Server/Over.antt =====
-- pkg/server/tcp/server.go: a stream that has ended, in the list of the connections.
use mproxy.Prelude.{
  ℕ, ◌≤◌, ◌≡◌, refl, true, false, none, some, List, [], ◌∷◌, ◌++◌, arith, All, ◌==◌, ◌∙◌,
}
use mproxy.Errors.{Err}
use mproxy.Handler.{Context}
use mproxy.Parser.{Direction, upstream, downstream}
use mproxy.Tcp.Connection.{Connection, find_conn, set_conn, drop_conn, end_stream, is_done}
use mproxy.Tcp.Server.Places.{served}
use mproxy.Tcp.Server.Waiting.{is_open}

done-context :
    (dir : Direction) (c : Connection) (hctx : Context)
    → is_done (record c { context = hctx }) dir ≡ is_done c dir
unfolding is_done
done-context upstream c hctx = refl
done-context downstream c hctx = refl

pub id-end_stream : (c : Connection) (dir' : Direction) (e : Err) → (end_stream c dir' e).id ≡ c.id
unfolding end_stream
id-end_stream c upstream e = refl
id-end_stream c downstream e = refl

module _ (a : ℕ) (dir : Direction) where
  -- If this is the connection, then its stream has ended.
  abbrev pub IsOver : Connection → Type 0
  IsOver c = (c.id == a) ≡ true → (c.streaming ≡ true) × (is_done c dir ≡ true)

  pub end_stream-IsOver :
      (c : Connection) (dir' : Direction) (e : Err) → IsOver c → IsOver (end_stream c dir' e)
  unfolding end_stream is_done
  end_stream-IsOver c upstream e over = ground (arith, over)
  end_stream-IsOver c downstream e over = ground (arith, over)

  -- The stream itself ends.
  pub own-IsOver : (c : Connection) (e : Err) → c.streaming ≡ true → IsOver (end_stream c dir e)
  unfolding end_stream is_done
  own-IsOver c e streaming = ground (arith, streaming)

  pub set_conn-IsOver :
      (c : Connection) (cs : List Connection)
      → IsOver c
      → All IsOver cs
      → All IsOver (set_conn c cs)
  unfolding set_conn
  set_conn-IsOver c [] over h = tt
  set_conn-IsOver c (d ∷ ds) over h = ground (arith, over, h, set_conn-IsOver c ds over h.1)

  pub drop_conn-IsOver :
      (b : ℕ) (cs : List Connection) → All IsOver cs → All IsOver (drop_conn b cs)
  unfolding drop_conn
  drop_conn-IsOver b [] h = tt
  drop_conn-IsOver b (d ∷ ds) h = ground (arith, h, drop_conn-IsOver b ds h.1)

  pub find_conn-IsOver :
      (b : ℕ) (c : Connection) (cs : List Connection)
      → All IsOver cs
      → find_conn b cs ≡ some c
      → IsOver c
  unfolding find_conn
  find_conn-IsOver b c [] h e = cc
  find_conn-IsOver b c (d ∷ ds) h e = ground (arith, h, find_conn-IsOver b c ds h.1)

  pub append-IsOver :
      (cs : List Connection) (c : Connection) → All IsOver cs → IsOver c → All IsOver (cs ++ c ∷ [])
  append-IsOver [] c h over = (over, tt)
  append-IsOver (d ∷ ds) c h over = (h.0, append-IsOver ds c h.1 over)

  none-IsOver : (cs : List Connection) → served a cs ≡ 0 → All IsOver cs
  none-IsOver [] h = tt
  none-IsOver (d ∷ ds) h = ((λ q. ground (arith, h, q)), none-IsOver ds (ground (arith, h)))

  -- The only connection of this number is replaced.
  pub only-IsOver :
      (c : Connection) (cs : List Connection)
      → c.id ≡ a
      → served a cs ≤ 1
      → IsOver c
      → All IsOver (set_conn c cs)
  unfolding set_conn
  only-IsOver c [] same one over = tt
  only-IsOver c (d ∷ ds) same one over =
      ground (arith, same, one, over, none-IsOver ds, only-IsOver c ds same)

  pub not-is_open : (cs : List Connection) → All IsOver cs → is_open a dir cs ≡ false
  unfolding is_open
  not-is_open [] h = refl
  not-is_open (d ∷ ds) h = ground (arith, h, not-is_open ds h.1)

  pub not-found : (cs : List Connection) → find_conn a cs ≡ none → is_open a dir cs ≡ false
  unfolding is_open find_conn
  not-found [] e = refl
  not-found (d ∷ ds) e = ground (arith, e, not-found ds)

  pub is_open-served : (cs : List Connection) → is_open a dir cs ≡ true → 1 ≤ served a cs
  unfolding is_open
  is_open-served [] o = cc
  is_open-served (d ∷ ds) o = ground (arith, o, is_open-served ds)

  pub context-IsOver :
      (c : Connection) (hctx : Context) → IsOver c → IsOver (record c { context = hctx })
  context-IsOver c hctx over q = ((over q).0, done-context dir c hctx ∙ (over q).1)
