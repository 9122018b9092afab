-- ===== src/Udp/Session.antt =====
-- pkg/server/udp/session.go. A session is shared by pointer between the map of the manager, the
-- workers and its downstream reader, so sessions stand on a heap and the map holds addresses.
pub mod Limits
pub mod Entries
pub mod Expiry
use mproxy.Prelude.{
  ℕ, zero, suc, ◌+◌, String, Bool, true, false, not, ◌&&◌, Option, none, some, List, [], ◌∷◌, ◌==◌,
  if◌then◌else◌, length,
}
use mproxy.Prelude.Int.{ℤ, pos, ltb_ℤ, leb_ℤ, since}
use mproxy.Prelude.Maps.{Dict, lookup, insert, delete}
use mproxy.Errors.{Err, sentinel, wrapped, numbered, ◌^^◌}
use mproxy.Handler.{Context, Handler, new_context}

abbrev pub err_shutdown_timeout : Err
err_shutdown_timeout = sentinel "udp" "shutdown timeout exceeded"

-- `remote_addr` is the text of the client's address. `cancelled` is `ctx.Done()`.
pub record Session : Type 0 where
  pub id : String
  pub remote_addr : String
  pub backend : Option ℕ
  pub last_activity : ℕ
  pub context : Context
  pub cancelled : Bool
  pub backend_closed : Bool

pub record SessionManager : Type 0 where
  pub sessions : Dict ℕ
  pub heap : ℕ → Session
  pub next_address : ℕ
  pub max_sessions : ℤ

unfoldable pub new_session_manager : ℤ → (ℕ → Session) → SessionManager
new_session_manager max_sessions heap = record {
  sessions = [];
  heap = heap;
  next_address = 0;
  max_sessions = max_sessions;
}

abbrev pub store : (ℕ → Session) → ℕ → Session → ℕ → Session
store heap a s b = if b == a then s else heap b

unfoldable pub update_activity : SessionManager → ℕ → ℕ → SessionManager
update_activity sm a now = record sm {
  heap = store sm.heap a (record (sm.heap a) { last_activity = now });
}

-- `Close` of a session: its context is cancelled and its backend closed.
unfoldable pub close_session : Session → Session
close_session s = elim s.backend [
  | none ↦ record s { cancelled = true }
  | some b ↦ record s { cancelled = true; backend_closed = true }
]

-- What the network gives when a backend is resolved and dialled.
pub data DialResult : Type 0 where
  unresolved : Err → DialResult
  undialed : Err → DialResult
  dialed : ℕ → DialResult

pub data Created : Type 0 where
  session : ℕ → Bool → Created
  failed : Err → Created

-- A fresh session: `parent_done` tells whether the context that it is derived from is done.
pub fresh_session : String → String → ℕ → ℕ → Bool → Session
fresh_session id key backend now parent_done = record {
  id = id;
  remote_addr = key;
  backend = some backend;
  last_activity = now;
  context = new_context id key "udp";
  cancelled = parent_done;
  backend_closed = false;
}

dial_and_add :
    SessionManager → String → String → DialResult → String → ℕ → Bool → SessionManager × Created
unfolding fresh_session
dial_and_add sm key target (unresolved e) id now done =
    (sm, failed (wrapped ("failed to resolve backend address " ^^ target) e))
dial_and_add sm key target (undialed e) id now done =
    (sm, failed (wrapped ("failed to dial backend " ^^ target) e))
dial_and_add sm key target (dialed b) id now done =
    let a = sm.next_address in
    (
      record sm {
        sessions = insert key a sm.sessions;
        heap = store sm.heap a (fresh_session id key b now done);
        next_address = suc a;
      },
      session a true,
    )

limit_error : ℤ → Err
limit_error n = numbered "session limit reached (" n "), rejecting new session"

-- The part of `GetOrCreate` under the write lock: another worker may have been faster.
unfoldable pub create :
    SessionManager → String → String → DialResult → String → ℕ → Bool → SessionManager × Created
unfolding dial_and_add update_activity limit_error
create sm key target dial id now done = elim (lookup key sm.sessions) [
  | some a ↦ (update_activity sm a now, session a false)
  | none ↦
      if ltb_ℤ (pos 0) sm.max_sessions && leb_ℤ sm.max_sessions (pos (length sm.sessions))
      then (sm, failed (limit_error sm.max_sessions))
      else dial_and_add sm key target dial id now done
]

unfoldable pub get_or_create :
    SessionManager → String → String → DialResult → String → ℕ → Bool → SessionManager × Created
unfolding create update_activity
get_or_create sm key target dial id now done = elim (lookup key sm.sessions) [
  | some a ↦ (update_activity sm a now, session a false)
  | none ↦ create sm key target dial id now done
]

unfoldable pub get : SessionManager → String → Option ℕ
get sm key = lookup key sm.sessions

unfoldable pub remove : SessionManager → String → SessionManager
remove sm key = record sm { sessions = delete key sm.sessions }

unfoldable pub count : SessionManager → ℕ
count sm = length sm.sessions

-- The first pass of `cleanupExpired`, under the read lock.
unfoldable pub expired_keys : (ℕ → Session) → ℕ → ℤ → Dict ℕ → List String
expired_keys heap now timeout [] = []
expired_keys heap now timeout ((key, a) ∷ rest) =
    let later = expired_keys heap now timeout rest in
    if ltb_ℤ timeout (since now (heap a).last_activity) then key ∷ later else later

module _ {S : Type 0} (h : Handler S) where
  -- The manager forgets a key and its session is closed, after the disconnect notification, which
  -- may change the session's context.
  unfoldable pub drop_session : SessionManager → S → String → ℕ → SessionManager × S
  drop_session sm s key a =
      let (s', c', notified) = h.on_disconnect s (sm.heap a).context in
      let gone = close_session (record (sm.heap a) { context = c' }) in
      (record sm { sessions = delete key sm.sessions; heap = store sm.heap a gone }, s')

  unfoldable pub remove_one : SessionManager → S → String → SessionManager × S
  unfolding drop_session
  remove_one sm s key = elim (lookup key sm.sessions) [
    | none ↦ (sm, s)
    | some a ↦ drop_session sm s key a
  ]

  -- The second pass, under the write lock.
  unfoldable pub remove_expired : SessionManager → S → List String → SessionManager × S
  unfolding remove_one
  remove_expired sm s [] = (sm, s)
  remove_expired sm s (key ∷ keys) =
      let (sm', s') = remove_one sm s key in remove_expired sm' s' keys

  -- `cleanupExpired` with nothing between its two passes. In the code the lock is released between
  -- them, and a session may become active there: the server's event `cleans` has the second pass alone,
  -- with keys that the first found at any time before.
  unfoldable pub cleanup_expired : SessionManager → S → ℕ → ℤ → SessionManager × S
  cleanup_expired sm s now timeout =
      remove_expired sm s (expired_keys sm.heap now timeout sm.sessions)

  -- The loop of `ForceCloseAll` over the entries of the map.
  unfoldable pub close_entries : SessionManager → S → Dict ℕ → SessionManager × S
  close_entries sm s [] = (sm, s)
  close_entries sm s ((key, a) ∷ rest) =
      let (sm', s') = drop_session sm s key a in close_entries sm' s' rest

  unfoldable pub force_close_all : SessionManager → S → SessionManager × S
  force_close_all sm s = close_entries sm s sm.sessions

  -- `DrainAll` waits if there are sessions. The wait ends when a tick sees none, or by the timer.
  unfoldable pub drain_begins : SessionManager → Bool
  drain_begins sm = not (count sm == 0)

  unfoldable pub drain_ends : SessionManager → S → Bool → SessionManager × S × Option Err
  drain_ends sm s true = (sm, s, none)
  drain_ends sm s false =
      let (sm', s') = force_close_all sm s in (sm', s', some err_shutdown_timeout)
