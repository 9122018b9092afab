-- ===== src/Pool.antt =====
-- pkg/pool/pool.go: the pool of connections to a backend. A method is cut at the places where it
-- does not hold the lock: `Get` is `begin_get`, then perhaps a wait or a dial, then `end_dial`.
pub mod Counting
pub mod System
pub mod Conservation
pub mod Sharing
use mproxy.Prelude.{
  ℕ, zero, suc, ◌+◌, Bool, true, false, not, ◌&&◌, ◌||◌, Option, none, some, List, [], ◌∷◌, ◌++◌,
  if◌then◌else◌, length,
}
use mproxy.Prelude.Int.{ℤ, pos, ltb_ℤ, leb_ℤ, inc, dec, since, default_if_zero}
use mproxy.Errors.{Err, sentinel, wrapped}

abbrev pub err_pool_closed : Err
err_pool_closed = sentinel "pool" "connection pool is closed"

abbrev pub err_pool_exhausted : Err
err_pool_exhausted = sentinel "pool" "connection pool exhausted"

pub record Config : Type 0 where
  pub max_idle : ℤ
  pub max_active : ℤ
  pub idle_timeout : ℤ
  pub max_conn_lifetime : ℤ
  pub dial_timeout : ℤ
  pub wait_timeout : ℤ

-- `raw` names the `net.Conn` under it.
pub record Conn : Type 0 where
  pub raw : ℕ
  pub created_at : ℕ

-- The head of `idle` is the end of the slice. `token` tells whether the channel `waitChan`, which
-- holds one entry, is full. `shut` lists the connections whose `net.Conn` the pool has closed.
pub record Pool : Type 0 where
  pub idle : List Conn
  pub active : ℤ
  pub config : Config
  pub closed : Bool
  pub token : Bool
  pub shut : List Conn

unfoldable pub with_defaults : Config → Config
unfolding default_if_zero
with_defaults c = record c {
  max_idle = if leb_ℤ c.max_idle (pos 0) then pos 10 else c.max_idle;
  idle_timeout = default_if_zero c.idle_timeout (pos 300000000000);
  max_conn_lifetime = default_if_zero c.max_conn_lifetime (pos 1800000000000);
  dial_timeout = default_if_zero c.dial_timeout (pos 10000000000);
}

unfoldable pub new : Config → Pool
unfolding with_defaults
new c = record {
  idle = [];
  active = pos 0;
  config = with_defaults c;
  closed = false;
  token = false;
  shut = [];
}

unfoldable pub is_valid : Config → Conn → ℕ → Bool
is_valid c conn now =
    not (ltb_ℤ (pos 0) c.max_conn_lifetime && ltb_ℤ c.max_conn_lifetime (since now conn.created_at))

-- What the loop over the idle connections finds: a valid one if there is one, those that are left,
-- and the expired ones, which it closes, above the ones closed before.
pub record Search : Type 0 where
  pub found : Option Conn
  pub left : List Conn
  pub closing : List Conn

unfoldable pub take_valid : Config → ℕ → List Conn → List Conn → Search
take_valid c now [] shut = record { found = none; left = []; closing = shut }
take_valid c now (conn ∷ rest) shut =
    let further = take_valid c now rest (conn ∷ shut) in
    if is_valid c conn now
    then record { found = some conn; left = rest; closing = shut }
    else further

-- How the locked part of `Get` ends.
pub data Begun : Type 0 where
  returns : Conn → Begun
  fails : Err → Begun
  waits : Begun
  dials : Begun

claim_new : Pool → Pool × Begun
claim_new p =
    if ltb_ℤ (pos 0) p.config.max_active && leb_ℤ p.config.max_active p.active
    then (p, if ltb_ℤ (pos 0) p.config.wait_timeout then waits else fails err_pool_exhausted)
    else (record p { active = inc p.active }, dials)

claim : Pool → Search → Pool × Begun
unfolding claim_new
claim p s = elim s.found [
  | some conn ↦ (record p { idle = s.left; shut = s.closing; active = inc p.active }, returns conn)
  | none ↦ claim_new (record p { idle = s.left; shut = s.closing })
]

unfoldable pub begin_get : Pool → ℕ → Pool × Begun
unfolding claim
begin_get p now =
    if p.closed then (p, fails err_pool_closed) else claim p (take_valid p.config now p.idle p.shut)

-- The three ways out of the wait: a token, after which `Get` begins anew, the timer, and the
-- context, with its error.
pub data Woken : Type 0 where
  by_token : Woken
  by_timer : Woken
  by_context : Err → Woken

-- None if there is no token to take: the wait goes on. The second part is the error of `Get`, or
-- none if it begins anew.
unfoldable pub wake : Pool → Woken → Option (Pool × Option Err)
wake p by_token = if p.token then some (record p { token = false }, none) else none
wake p by_timer = some (p, some err_pool_exhausted)
wake p (by_context e) = some (p, some e)

pub data Dialed : Type 0 where
  connected : ℕ → Dialed
  refused : Err → Dialed

pub data Got : Type 0 where
  got : Conn → Got
  failed : Err → Got

unfoldable pub end_dial : Pool → Dialed → ℕ → Pool × Got
end_dial p (refused e) now =
    (record p { active = dec p.active }, failed (wrapped "failed to dial" e))
end_dial p (connected raw) now = (p, got (record { raw = raw; created_at = now }))

-- `close_err` is what `Close` of the connection under `conn` returns.
store : Pool → Conn → ℕ → Option Err → Pool × Option Err
store p conn now close_err =
    if p.closed || not (is_valid p.config conn now)
    then (record p { shut = conn ∷ p.shut }, close_err)
    else if leb_ℤ p.config.max_idle (pos (length p.idle))
    then (record p { shut = conn ∷ p.shut }, close_err)
    else (record p { idle = conn ∷ p.idle; token = true }, none)

unfoldable pub put : Pool → Conn → ℕ → Option Err → Pool × Option Err
unfolding store
put p conn now close_err = store (record p { active = dec p.active }) conn now close_err

unfoldable pub is_stale : Config → Conn → ℕ → Bool
is_stale c conn now =
    ltb_ℤ (pos 0) c.idle_timeout && ltb_ℤ c.idle_timeout (since now conn.created_at)

-- One pass over the idle connections, from the start of the slice: those kept, and those closed.
unfoldable pub sweep : Config → ℕ → List Conn → List Conn → List Conn × List Conn
sweep c now [] shut = ([], shut)
sweep c now (conn ∷ rest) shut =
    let (kept, shut') = sweep c now rest shut in
    if is_stale c conn now then (kept, conn ∷ shut') else (conn ∷ kept, shut')

-- A tick of `cleanIdleConnections`, and whether its loop goes on.
unfoldable pub clean_tick : Pool → ℕ → Pool × Bool
clean_tick p now =
    if p.closed
    then (p, false)
    else (let (kept, shut') = sweep p.config now p.idle p.shut in
        (record p { idle = kept; shut = shut' }, true))

pub close_all : List Conn → List Conn → List Conn
close_all [] shut = shut
close_all (conn ∷ rest) shut = conn ∷ close_all rest shut

unfoldable pub close : Pool → Pool
unfolding close_all
close p =
    if p.closed then p else record p { closed = true; shut = close_all p.idle p.shut; idle = [] }

pub stats : Pool → ℕ × ℤ
stats p = (length p.idle, p.active)
