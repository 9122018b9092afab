-- ===== src/Udp/Session/Limits.antt =====
-- pkg/server/udp/session.go: which session a client is given, and how many there are.
use mproxy.Prelude.{
  ℕ, suc, ◌<◌, ◌≡◌, refl, String, Bool, false, [], ◌∷◌, arith, none, some, Option-cases, inl, inr,
  ◌⊎◌, str_eq, eq_iff, length, is_none, ◌==◌,
}
use mproxy.Prelude.Int.{pos, ◌≤ℤ◌, ◌<ℤ◌}
use mproxy.Prelude.Maps.{
  Dict, lookup, insert, delete, lookup-insert, lookup-delete, length-insert_new, length-delete-le,
}
use mproxy.Udp.Session.{
  Session, SessionManager, DialResult, unresolved, undialed, dialed, Created, session, failed,
  create, get_or_create, get, remove, store, update_activity, fresh_session,
}

-- No key stands twice in the map.
abbrev pub Distinct : Dict ℕ → Type 0
Distinct [] = Unit {0}
Distinct ((k, v) ∷ m) = (lookup k m ≡ none) × Distinct m

-- Each session in the map is that of its key, and stands on the heap.
abbrev pub Owned : (ℕ → Session) → ℕ → Dict ℕ → Type 0
Owned heap n [] = Unit {0}
Owned heap n ((k, a) ∷ m) = (a < n) × ((heap a).remote_addr ≡ k) × Owned heap n m

pub record IsSound (sm : SessionManager) : Type 0 where
  pub distinct : Distinct sm.sessions
  pub owned : Owned sm.heap sm.next_address sm.sessions
  pub limit : pos 0 <ℤ sm.max_sessions → pos (length sm.sessions) ≤ℤ sm.max_sessions

pub insert-Distinct : (k : String) (a : ℕ) (m : Dict ℕ) → Distinct m → Distinct (insert k a m)
unfolding insert lookup
insert-Distinct k a [] d = (refl, tt)
insert-Distinct k a ((j, b) ∷ m) d =
    ground (arith, insert-Distinct k a m d.1, lookup-insert k j a m, eq_iff j k, eq_iff k j)

pub delete-Distinct : (k : String) (m : Dict ℕ) → Distinct m → Distinct (delete k m)
unfolding delete
delete-Distinct k [] d = tt
delete-Distinct k ((j, b) ∷ m) d =
    ground (arith, delete-Distinct k m d.1, lookup-delete k j m, eq_iff j k, eq_iff k j)

-- A new session on the heap, and a changed one that stays the session of its client.
pub store-Owned :
    (heap : ℕ → Session) (a n : ℕ) (s : Session) (m : Dict ℕ)
    → ((a ≡ n) ⊎ (s.remote_addr ≡ (heap a).remote_addr))
    → Owned heap n m
    → Owned (store heap a s) n m
store-Owned heap a n s [] h o = tt
store-Owned heap a n s ((k, b) ∷ m) h o = ground (arith, store-Owned heap a n s m h o.2)

Owned-suc : (heap : ℕ → Session) (n : ℕ) (m : Dict ℕ) → Owned heap n m → Owned heap (suc n) m
Owned-suc heap n [] o = tt
Owned-suc heap n ((k, b) ∷ m) o = (omega arith, o.1, Owned-suc heap n m o.2)

insert-Owned :
    (heap : ℕ → Session) (n : ℕ) (k : String) (m : Dict ℕ)
    → (heap n).remote_addr ≡ k
    → Owned heap n m
    → Owned heap (suc n) (insert k n m)
unfolding insert
insert-Owned heap n k [] h o = (omega arith, h, tt)
insert-Owned heap n k ((j, b) ∷ m) h o =
    ground (arith, insert-Owned heap n k m h o.2, Owned-suc heap n m o.2, eq_iff j k)

pub delete-Owned :
    (heap : ℕ → Session) (n : ℕ) (k : String) (m : Dict ℕ)
    → Owned heap n m
    → Owned heap n (delete k m)
unfolding delete
delete-Owned heap n k [] o = tt
delete-Owned heap n k ((j, b) ∷ m) o = ground (arith, delete-Owned heap n k m o.2)

pub lookup-Owned :
    (heap : ℕ → Session) (n a : ℕ) (k : String) (m : Dict ℕ)
    → Owned heap n m
    → lookup k m ≡ some a
    → (a < n) × ((heap a).remote_addr ≡ k)
unfolding lookup
lookup-Owned heap n a k [] o e = cc
lookup-Owned heap n a k ((j, b) ∷ m) o e = ground (arith, lookup-Owned heap n a k m o.2, eq_iff j k)

create-IsSound :
    (sm : SessionManager) (key target : String) (dial : DialResult) (id : String) (now : ℕ)
    (done : Bool)
    → IsSound sm
    → get sm key ≡ none
    → IsSound (create sm key target dial id now done).0
unfolding create get
create-IsSound sm key target (unresolved e) id now done v h = rw (h, create) (ground (arith, v))
create-IsSound sm key target (undialed e) id now done v h = rw (h, create) (ground (arith, v))
create-IsSound sm key target (dialed b) id now done v h =
    let heap = store sm.heap sm.next_address (fresh_session id key b now done) in
    rw (h, create)
      (ground (
        arith,
        v,
        h,
        insert-Distinct key sm.next_address sm.sessions v.distinct,
        insert-Owned heap sm.next_address key sm.sessions (ground arith) (
            store-Owned sm.heap sm.next_address sm.next_address (fresh_session id key b now done)
              sm.sessions (inl refl) v.owned),
        length-insert_new key sm.next_address sm.sessions h,
      ))

pub get_or_create-IsSound :
    (sm : SessionManager) (key target : String) (dial : DialResult) (id : String) (now : ℕ)
    (done : Bool)
    → IsSound sm
    → IsSound (get_or_create sm key target dial id now done).0
unfolding get_or_create get
get_or_create-IsSound sm key target dial id now done v =
    elim (Option-cases (lookup key sm.sessions)) [
      | inl e ↦ rw (e, get_or_create) (create-IsSound sm key target dial id now done v e)
      | inr (a, e) ↦
          rw (e, get_or_create)
            (record {
              distinct = v.distinct;
              owned = store-Owned sm.heap a sm.next_address _ sm.sessions (inr refl) v.owned;
              limit = v.limit;
            })
    ]

-- What a client of this key may rely on, and any other one, of key `j`, whose session is at `b`.
abbrev pub Served : SessionManager → String → ℕ → String → ℕ → SessionManager × Created → Type 0
Served sm key now j b (sm', session a is_new) =
    (get sm' key ≡ some a)
    × (is_new ≡ is_none (get sm key))
    × ((sm'.heap a).remote_addr ≡ key)
    × ((sm'.heap a).last_activity ≡ now)
    × (get sm key ≡ some a → sm'.heap a ≡ record (sm.heap a) { last_activity = now })
    × (str_eq key j ≡ false → get sm' j ≡ get sm j)
    × (str_eq key j ≡ false → get sm j ≡ some b → ((b == a) ≡ false) × (sm'.heap b ≡ sm.heap b))
Served sm key now j b (sm', failed e) = (sm' ≡ sm) × (get sm key ≡ none)

apart :
    (sm : SessionManager) (key j : String) (a b : ℕ)
    → IsSound sm
    → str_eq key j ≡ false
    → (a < sm.next_address → (sm.heap a).remote_addr ≡ key)
    → lookup j sm.sessions ≡ some b
    → (b == a) ≡ false
apart sm key j a b v other mine e =
    let own = lookup-Owned sm.heap sm.next_address b j sm.sessions v.owned e in
    ground (arith, other, mine, own.0, own.1, eq_iff key j)

create-Served :
    (sm : SessionManager) (key target : String) (dial : DialResult) (id : String) (now : ℕ)
    (done : Bool) (j : String) (b : ℕ)
    → IsSound sm
    → get sm key ≡ none
    → Served sm key now j b (create sm key target dial id now done)
unfolding create get
create-Served sm key target (unresolved e) id now done j b v h = rw (h, create) (ground (arith, h))
create-Served sm key target (undialed e) id now done j b v h = rw (h, create) (ground (arith, h))
create-Served sm key target (dialed d) id now done j b v h =
    rw (h, create)
      (ground (
        arith,
        h,
        eq_iff key j,
        eq_iff key key,
        apart sm key j sm.next_address b v,
        lookup-insert key j sm.next_address sm.sessions,
        lookup-insert key key sm.next_address sm.sessions,
      ))

found-Served :
    (sm : SessionManager) (key : String) (now : ℕ) (j : String) (a b : ℕ)
    → IsSound sm
    → get sm key ≡ some a
    → Served sm key now j b (update_activity sm a now, session a false)
unfolding get update_activity
found-Served sm key now j a b v e =
    let own = lookup-Owned sm.heap sm.next_address a key sm.sessions v.owned e in
    ground (arith, e, own.0, own.1, apart sm key j a b v)

-- A client is given its own session, and no other's changes. Let the map and the heap be sound: no key
-- stands twice, each session on the heap is that of its key, and the limit holds. After `GetOrCreate`
-- succeeds, `Get` finds the session it gave for the client; the session has the client's address and
-- an activity of this instant, and is new exactly if the client had none; if it had one, then only the
-- activity changes. Every other client has the session that it had, which is another one on the heap
-- and unchanged there. A failure changes nothing, and happens only to a client with no session.
-- The map and the heap are sound afterwards.
pub get_or_create-Served :
    (sm : SessionManager) (key target : String) (dial : DialResult) (id : String) (now : ℕ)
    (done : Bool) (j : String) (b : ℕ)
    → IsSound sm
    → let r = get_or_create sm key target dial id now done in Served sm key now j b r × IsSound r.0
unfolding get_or_create get
get_or_create-Served sm key target dial id now done j b v = (
  elim (Option-cases (lookup key sm.sessions)) [
    | inl e ↦ rw (e, get_or_create) (create-Served sm key target dial id now done j b v e)
    | inr (a, e) ↦ rw (e, get_or_create) (found-Served sm key now j a b v e)
  ],
  get_or_create-IsSound sm key target dial id now done v,
)

pub remove-IsSound : (sm : SessionManager) (key : String) → IsSound sm → IsSound (remove sm key)
unfolding remove
remove-IsSound sm key v = ground (
  arith,
  v,
  delete-Distinct key sm.sessions v.distinct,
  delete-Owned sm.heap sm.next_address key sm.sessions v.owned,
  length-delete-le key sm.sessions,
)
