-- ===== src/Pool/Sharing.antt =====
-- pkg/pool/pool.go: how each way out of `Get` comes about, and what `Close` of a connection does,
-- also when it is called twice.
use mproxy.Prelude.{
  ℕ, ◌+◌, ◌≡◌, ◌⊎◌, true, false, List, [], ◌∷◌, arith, Option, none, some, length, All,
}
use mproxy.Prelude.Int.{pos, ◌≤ℤ◌, ◌<ℤ◌, dec, since}
use mproxy.Errors.{Err}
use mproxy.Pool.{
  Config, Conn, Pool, take_valid, is_valid, Begun, returns, fails, waits, dials, begin_get, put,
  err_pool_closed, err_pool_exhausted, is_stale, clean_tick, sweep,
}

-- Every idle connection has outlived `MaxConnLifetime`.
abbrev pub NoneValid : Pool → ℕ → Type 0
NoneValid p now = All (λ c. is_valid p.config c now ≡ false) p.idle

abbrev pub AtLimit : Pool → Type 0
AtLimit p = (pos 0 <ℤ p.config.max_active) × (p.config.max_active ≤ℤ p.active)

-- Why `Get` leaves its locked part in this way.
abbrev pub Reason : Pool → ℕ → Begun → Type 0
Reason p now (returns c) = (p.closed ≡ false) × (is_valid p.config c now ≡ true)
Reason p now (fails e) =
    ((p.closed ≡ true) × (e ≡ err_pool_closed))
    ⊎ ((p.closed ≡ false)
        × (e ≡ err_pool_exhausted)
        × NoneValid p now
        × AtLimit p
        × (p.config.wait_timeout ≤ℤ pos 0))
Reason p now waits =
    (p.closed ≡ false) × NoneValid p now × AtLimit p × (pos 0 <ℤ p.config.wait_timeout)
Reason p now dials =
    (p.closed ≡ false)
    × NoneValid p now
    × ((p.config.max_active ≤ℤ pos 0) ⊎ (p.active <ℤ p.config.max_active))

-- What the search of the idle connections finds.
abbrev Found : Config → ℕ → List Conn → Option Conn → Type 0
Found k now idle none = All (λ c. is_valid k c now ≡ false) idle
Found k now idle (some c) = is_valid k c now ≡ true

take_valid-Found :
    (k : Config) (now : ℕ) (idle shut : List Conn)
    → Found k now idle (take_valid k now idle shut).found
unfolding take_valid
take_valid-Found k now [] shut = tt
take_valid-Found k now (c ∷ rest) shut = ground (arith, take_valid-Found k now rest (c ∷ shut))

-- `Get` hands out only connections that have not outlived `MaxConnLifetime`, and none once the
-- pool is closed. It dials only if no idle connection will do and there is no limit or `active`
-- is below it; at the limit it waits if it may, and otherwise fails.
pub begin_get-Reason : (p : Pool) (now : ℕ) → Reason p now (begin_get p now).1
unfolding begin_get
begin_get-Reason p now = ground (arith, take_valid-Found p.config now p.idle p.shut)

-- What `Close` of a connection does: the pool keeps it just if it is open, the connection has not
-- outlived `MaxConnLifetime` and fewer than `MaxIdle` are idle. Only then is a waiter signalled,
-- though one place has become free in each case; otherwise the connection is closed.
put_cases :
    (p : Pool) (c : Conn) (now : ℕ) (close_err : Option Err)
    → let (q, err) = put p c now close_err in
      (q.active ≡ dec p.active)
      × ((p.closed ≡ false)
            × (is_valid p.config c now ≡ true)
            × (pos (length p.idle) <ℤ p.config.max_idle)
            × (q.idle ≡ c ∷ p.idle)
            × (q.shut ≡ p.shut)
            × (q.token ≡ true)
            × (err ≡ none)
          ⊎ ((p.closed ≡ true)
              ⊎ (is_valid p.config c now ≡ false)
              ⊎ (p.config.max_idle ≤ℤ pos (length p.idle)))
            × (q.idle ≡ p.idle)
            × (q.shut ≡ c ∷ p.shut)
            × (q.token ≡ p.token)
            × (err ≡ close_err))
unfolding put
put_cases p c now close_err = ground arith

-- A second `Close` of one connection is not refused. In an open pool with room for two more, it
-- makes the connection idle twice, takes two off `active`, and the next two calls of `Get` at that
-- instant hand the same connection to both callers.
pub put-put-shares :
    (p : Pool) (c : Conn) (now : ℕ) (e e' : Option Err)
    → p.closed ≡ false
    → is_valid p.config c now ≡ true
    → pos (length p.idle + 1) <ℤ p.config.max_idle
    → let q = (put (put p c now e).0 c now e').0 in
      (q.active ≡ dec (dec p.active))
      × ((begin_get q now).1 ≡ returns c)
      × ((begin_get (begin_get q now).0 now).1 ≡ returns c)
unfolding put begin_get take_valid
put-put-shares p c now e e' o v r = ground arith

-- The cleaner goes by the age of a connection and not by the time that it has been idle: one that
-- is older than `IdleTimeout` is closed by the next tick, even if it was put back at that instant.
clean_tick-put :
    (p : Pool) (c : Conn) (now : ℕ) (close_err : Option Err)
    → p.closed ≡ false
    → is_valid p.config c now ≡ true
    → pos (length p.idle) <ℤ p.config.max_idle
    → pos 0 <ℤ p.config.idle_timeout
    → p.config.idle_timeout <ℤ since now c.created_at
    → let q = (put p c now close_err).0 in
      (q.idle ≡ c ∷ p.idle)
      × ((clean_tick q now).0.shut ≡ c ∷ (sweep p.config now p.idle p.shut).1)
      × ((clean_tick q now).0.idle ≡ (sweep p.config now p.idle p.shut).0)
unfolding put clean_tick sweep is_stale
clean_tick-put p c now close_err o v r t h = ground arith
