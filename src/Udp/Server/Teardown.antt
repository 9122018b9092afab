-- ===== src/Udp/Server/Teardown.antt =====
-- pkg/server/udp/server.go: what the end of a session's downstream reader does to other sessions,
-- and to a session that the cleanup has closed already.
use mproxy.Prelude.{
  ℕ, ◌≡◌, refl, String, true, false, [], ◌∷◌, arith, none, some, if◌then◌else◌, str_eq, eq_iff,
  ◌==◌, ap,
}
use mproxy.Prelude.Maps.{delete, lookup-delete}
use mproxy.Handler.{Bytes, Handler}
use mproxy.Parser.{Parser}
use mproxy.Udp.Session.{get, remove, close_session, drop_session, remove_expired}
use mproxy.Udp.Session.Expiry.{remove_one-some}
use mproxy.Udp.Server.{Server, Target, Incoming, reader_exit, read_round, clean}

module _ {S W : Type 0} (h : Handler S) (parser : Target → Parser S Bytes W) where
  -- When a session's downstream reader ends, whatever session its client's address has by then is
  -- forgotten, an earlier one of the same client as well as its own: if that is another session, it
  -- stays open, neither cancelled nor its backend closed by this. The sessions of other addresses
  -- stay in the map. The handler is told once, of the reader's own session, which is cancelled.
  pub reader_exit-get :
      (sv : Server S W) (a b : ℕ) (j : String)
      → get sv.manager (sv.manager.heap a).remote_addr ≡ some b
      → (b == a) ≡ false
      → let sv' = reader_exit h parser sv a in
        (get sv'.manager j
          ≡ (if str_eq (sv.manager.heap a).remote_addr j then none else get sv.manager j))
        × (sv'.manager.heap b ≡ sv.manager.heap b)
        × ((sv'.manager.heap a).cancelled ≡ true)
        × (sv'.state ≡ (h.on_disconnect sv.state (sv.manager.heap a).context).0)
  unfolding reader_exit get remove close_session
  reader_exit-get sv a b j e n = (
    lookup-delete (sv.manager.heap a).remote_addr j sv.manager.sessions,
    ground arith,
    ground arith,
    refl,
  )

  clean-drop :
      (sv : Server S W) (key : String) (a : ℕ)
      → get sv.manager key ≡ some a
      → clean h parser sv (key ∷ []) ≡ record sv {
        manager = (drop_session h sv.manager sv.state key a).0;
        state = (drop_session h sv.manager sv.state key a).1;
      }
  unfolding clean remove_expired get
  clean-drop sv key a e =
      ap (λ r. record sv { manager = r.0; state = r.1 })
        (remove_one-some h sv.manager sv.state key a e)

  exit_after_drop :
      (sv : Server S W) (key : String) (a : ℕ) (incoming : Incoming) (now : ℕ)
      → let sv' = record sv {
        manager = (drop_session h sv.manager sv.state key a).0;
        state = (drop_session h sv.manager sv.state key a).1;
      } in
        let (s', c', e) = h.on_disconnect sv.state (sv.manager.heap a).context in
        let after = read_round h parser sv' a incoming now in
        (after.state ≡ (h.on_disconnect s' c').0) × (get after.manager key ≡ none)
  unfolding read_round reader_exit get remove drop_session close_session
  exit_after_drop sv key a incoming now = (
    ground arith,
    ground (
      arith,
      lookup-delete (sv.manager.heap a).remote_addr key (delete key sv.manager.sessions),
      lookup-delete key key sv.manager.sessions,
      eq_iff key key,
    ),
  )

  -- A session that the cleanup removes is announced to the handler as disconnected, and a second
  -- time when its downstream reader sees that the session is cancelled: the second call has the
  -- context that the first one left.
  pub clean-reads :
      (sv : Server S W) (key : String) (a : ℕ) (incoming : Incoming) (now : ℕ)
      → get sv.manager key ≡ some a
      → let sv' = clean h parser sv (key ∷ []) in
        let (s', c', e) = h.on_disconnect sv.state (sv.manager.heap a).context in
        (sv'.state ≡ s')
        × ((read_round h parser sv' a incoming now).state ≡ (h.on_disconnect s' c').0)
        × (get (read_round h parser sv' a incoming now).manager key ≡ none)
  unfolding drop_session
  clean-reads sv key a incoming now e =
      let r = exit_after_drop sv key a incoming now in rw (clean-drop sv key a e) (refl, r.0, r.1)
