-- ===== src/Pool/System.antt =====
-- pkg/pool/pool.go with its callers: the pool, the dials under way, and the connections that
-- callers hold. Threads may take the lock in any order.
use mproxy.Prelude.{ℕ, suc, ◌+◌, ◌≡◌, List, [], ◌∷◌, ◌++◌, Option, some}
use mproxy.Errors.{Err}
use mproxy.Pool.Counting.{count}
use mproxy.Pool.{
  Config, Conn, Pool, returns, fails, waits, dials, begin_get, Woken, wake, connected, refused, got,
  failed, end_dial, put, clean_tick, close, new,
}

pub record System : Type 0 where
  pub pool : Pool
  pub dialing : ℕ
  pub held : List Conn
  pub next_raw : ℕ

-- One step of some thread. A dial that succeeds gives a connection that was not there before, and
-- a caller closes a connection that it holds, once.
pub data Step (s : System) : System → Type 0 where
  get_returns :
      (p : Pool) (c : Conn) (now : ℕ)
      → begin_get s.pool now ≡ (p, returns c)
      → Step s (record s { pool = p; held = c ∷ s.held })
  get_dials :
      (p : Pool) (now : ℕ)
      → begin_get s.pool now ≡ (p, dials)
      → Step s (record s { pool = p; dialing = s.dialing + 1 })
  get_waits :
      (p : Pool) (now : ℕ) → begin_get s.pool now ≡ (p, waits) → Step s (record s { pool = p })
  get_fails :
      (p : Pool) (e : Err) (now : ℕ)
      → begin_get s.pool now ≡ (p, fails e)
      → Step s (record s { pool = p })
  wakes :
      (w : Woken) (p : Pool) (e : Option Err)
      → wake s.pool w ≡ some (p, e)
      → Step s (record s { pool = p })
  dial_connects :
      (d : ℕ) (c : Conn) (p : Pool) (now : ℕ)
      → s.dialing ≡ suc d
      → end_dial s.pool (connected s.next_raw) now ≡ (p, got c)
      → Step s (record { pool = p; dialing = d; held = c ∷ s.held; next_raw = s.next_raw + 1 })
  dial_fails :
      (d : ℕ) (e e' : Err) (p : Pool) (now : ℕ)
      → s.dialing ≡ suc d
      → end_dial s.pool (refused e) now ≡ (p, failed e')
      → Step s (record s { pool = p; dialing = d })
  puts :
      (before after : List Conn) (c : Conn) (now : ℕ) (close_err : Option Err)
      → s.held ≡ before ++ c ∷ after
      → Step s (record s { pool = (put s.pool c now close_err).0; held = before ++ after })
  cleans : (now : ℕ) → Step s (record s { pool = (clean_tick s.pool now).0 })
  closes : Step s (record s { pool = close s.pool })

pub data Reach (s : System) : System → Type 0 where
  here : Reach s s
  next : {t u : System} → Reach s t → Step t u → Reach s u

unfoldable pub start : Config → System
start c = record { pool = new c; dialing = 0; held = []; next_raw = 0 }

-- All the places of a connection: idle in the pool, held by a caller, or closed.
abbrev pub places : System → ℕ → ℕ
places s a = count a s.pool.idle + count a s.held + count a s.pool.shut
