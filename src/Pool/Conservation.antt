-- ===== src/Pool/Conservation.antt =====
-- pkg/pool/pool.go: what holds of the pool and its callers after any steps.
use mproxy.Prelude.{
  ℕ, ◌+◌, ◌≡◌, List, [], ◌∷◌, ◌++◌, arith, Option, if◌then◌else◌, length, length-append, ltb, ap,
  ◌∙◌,
}
use mproxy.Prelude.Int.{pos, ◌≤ℤ◌, ◌<ℤ◌, i64, i64_id, max_int64, leb_ℤ}
use mproxy.Errors.{Err}
use mproxy.Pool.{
  Config, Conn, Pool, Begun, returns, dials, begin_get, by_token, by_timer, by_context, wake,
  end_dial, put, clean_tick, close, new, with_defaults,
}
use mproxy.Pool.Counting.{
  count, count-append, inc-i64, dec-i64, take_valid-count, take_valid-length, sweep-count,
  sweep-length, close_all-count,
}
use mproxy.Pool.System.{
  System, Step, get_returns, get_dials, get_waits, get_fails, wakes, dial_connects, dial_fails,
  puts, cleans, closes, Reach, here, next, start, places,
}

-- The counter is the number of dials under way and of connections held, as a Go `int` counts it.
-- A limit on the active connections bounds these together with the idle ones: an idle connection
-- is handed out with no look at the limit.
pub record Inv (k : Config) (s : System) : Type 0 where
  pub config_eq : s.pool.config ≡ k
  pub limit_range : s.pool.config.max_active ≤ℤ pos max_int64
  pub active_eq : s.pool.active ≡ i64 (pos (s.dialing + length s.held))
  pub active_limit :
      pos 0 <ℤ s.pool.config.max_active
      → pos (s.dialing + length s.held + length s.pool.idle) ≤ℤ s.pool.config.max_active
  pub idle_limit : pos (length s.pool.idle) ≤ℤ s.pool.config.max_idle

-- The connection that `begin_get` gives to its caller.
abbrev count_begun : ℕ → Begun → ℕ
count_begun a (returns c) = count a (c ∷ [])
count_begun a _ = 0

-- The busy connections and dials that `begin_get` adds.
abbrev busier : Begun → ℕ
busier (returns c) = 1
busier dials = 1
busier _ = 0

-- What the locked part of `Get` keeps, where it leaves `m` busy connections and dials.
record Keeps (p q : Pool) (m : ℕ) : Type 0 where
  config_eq : q.config ≡ p.config
  active_eq : q.active ≡ i64 (pos m)
  active_limit : pos 0 <ℤ p.config.max_active → pos (m + length q.idle) ≤ℤ p.config.max_active
  idle_limit : pos (length q.idle) ≤ℤ p.config.max_idle

begin_get-Keeps :
    (p : Pool) (now n : ℕ)
    → p.config.max_active ≤ℤ pos max_int64
    → p.active ≡ i64 (pos n)
    → (pos 0 <ℤ p.config.max_active → pos (n + length p.idle) ≤ℤ p.config.max_active)
    → pos (length p.idle) ≤ℤ p.config.max_idle
    → Keeps p (begin_get p now).0 (n + busier (begin_get p now).1)
unfolding begin_get
begin_get-Keeps p now n r a l i =
    ground (arith, inc-i64 n, i64_id (pos n), take_valid-length p.config now p.idle p.shut)

begun-Keeps :
    (k : Config) (s : System) (now : ℕ) {p : Pool} {b : Begun}
    → Inv k s
    → begin_get s.pool now ≡ (p, b)
    → Keeps s.pool p (s.dialing + length s.held + busier b)
begun-Keeps k s now v e = rw e at (
    begin_get-Keeps s.pool now (s.dialing + length s.held) v.limit_range v.active_eq v.active_limit
      v.idle_limit)

put-Keeps :
    (p : Pool) (c : Conn) (now n : ℕ) (close_err : Option Err)
    → p.config.max_active ≤ℤ pos max_int64
    → p.active ≡ i64 (pos (n + 1))
    → (pos 0 <ℤ p.config.max_active → pos (n + 1 + length p.idle) ≤ℤ p.config.max_active)
    → pos (length p.idle) ≤ℤ p.config.max_idle
    → Keeps p (put p c now close_err).0 n
unfolding put
put-Keeps p c now n close_err r a l i = ground (arith, dec-i64 n)

clean_tick-Keeps :
    (p : Pool) (now n : ℕ)
    → p.active ≡ i64 (pos n)
    → (pos 0 <ℤ p.config.max_active → pos (n + length p.idle) ≤ℤ p.config.max_active)
    → pos (length p.idle) ≤ℤ p.config.max_idle
    → Keeps p (clean_tick p now).0 n
unfolding clean_tick
clean_tick-Keeps p now n a l i = ground (arith, sweep-length p.config now p.idle p.shut)

close-Keeps :
    (p : Pool) (n : ℕ)
    → p.active ≡ i64 (pos n)
    → (pos 0 <ℤ p.config.max_active → pos (n + length p.idle) ≤ℤ p.config.max_active)
    → pos (length p.idle) ≤ℤ p.config.max_idle
    → Keeps p (close p) n
unfolding close
close-Keeps p n a l i = ground arith

Step-Inv : {k : Config} {s t : System} → Step s t → Inv k s → Inv k t
unfolding wake end_dial
Step-Inv {k} {s} (get_returns p c now e) v = ground (arith, begun-Keeps k s now v e)
Step-Inv {k} {s} (get_dials p now e) v = ground (arith, begun-Keeps k s now v e)
Step-Inv {k} {s} (get_waits p now e) v = ground (arith, begun-Keeps k s now v e)
Step-Inv {k} {s} (get_fails p x now e) v = ground (arith, begun-Keeps k s now v e)
Step-Inv {s} (wakes by_token p x e) v = ground arith
Step-Inv {s} (wakes by_timer p x e) v = ground arith
Step-Inv {s} (wakes (by_context y) p x e) v = ground arith
Step-Inv {s} (dial_connects d c p now n e) v = ground arith
Step-Inv {s} (dial_fails d x x' p now n e) v = ground (arith, dec-i64 (d + length s.held))
Step-Inv {s} (puts before after c now x h) v =
    let m = s.dialing + length (before ++ after) in
    let fewer : s.dialing + length s.held ≡ m + 1 =
      omega (arith, ap length h, length-append before (c ∷ after), length-append before after) in
    let k =
      put-Keeps s.pool c now m x v.limit_range (v.active_eq ∙ ap (λ n. i64 (pos n)) fewer)
        (ground (arith, fewer)) v.idle_limit in
    ground (arith, k)
Step-Inv {s} (cleans now) v =
    let k =
      clean_tick-Keeps s.pool now (s.dialing + length s.held) v.active_eq v.active_limit
        v.idle_limit in
    ground (arith, k)
Step-Inv {s} closes v =
    let k =
      close-Keeps s.pool (s.dialing + length s.held) v.active_eq v.active_limit v.idle_limit in
    ground (arith, k)

-- Each connection that was ever dialled has exactly one place, and there is no other.
abbrev pub Conserved : System → Type 0
Conserved s = (a : ℕ) → places s a ≡ (if ltb a s.next_raw then 1 else 0)

begin_get-places :
    (p : Pool) (now a : ℕ)
    → let (q, b) = begin_get p now in
      (count a q.idle + count a q.shut + count_begun a b ≡ count a p.idle + count a p.shut)
unfolding begin_get
begin_get-places p now a = ground (arith, take_valid-count p.config now a p.idle p.shut)

put-places :
    (p : Pool) (c : Conn) (now a : ℕ) (x : Option Err)
    → let q = (put p c now x).0 in
      count a q.idle + count a q.shut ≡ count a p.idle + count a p.shut + count a (c ∷ [])
unfolding put
put-places p c now a x = ground arith

clean_tick-places :
    (p : Pool) (now a : ℕ)
    → let q = (clean_tick p now).0 in
      count a q.idle + count a q.shut ≡ count a p.idle + count a p.shut
unfolding clean_tick
clean_tick-places p now a = ground (arith, sweep-count p.config now a p.idle p.shut)

close-places :
    (p : Pool) (a : ℕ)
    → count a (close p).idle + count a (close p).shut ≡ count a p.idle + count a p.shut
unfolding close
close-places p a = ground (arith, close_all-count a p.idle p.shut)

begun-places :
    (s : System) (now a : ℕ) {p : Pool} {b : Begun}
    → begin_get s.pool now ≡ (p, b)
    → count a p.idle + count a p.shut + count_begun a b ≡ count a s.pool.idle + count a s.pool.shut
begun-places s now a e = rw e at (begin_get-places s.pool now a)

Step-Conserved : {s t : System} → Step s t → Conserved s → Conserved t
unfolding wake end_dial
Step-Conserved {s} (get_returns p c now e) v a = ground (arith, v a, begun-places s now a e)
Step-Conserved {s} (get_dials p now e) v a = ground (arith, v a, begun-places s now a e)
Step-Conserved {s} (get_waits p now e) v a = ground (arith, v a, begun-places s now a e)
Step-Conserved {s} (get_fails p x now e) v a = ground (arith, v a, begun-places s now a e)
Step-Conserved {s} (wakes by_token p x e) v a = ground (arith, v a)
Step-Conserved {s} (wakes by_timer p x e) v a = ground (arith, v a)
Step-Conserved {s} (wakes (by_context y) p x e) v a = ground (arith, v a)
Step-Conserved {s} (dial_connects d c p now n e) v a = ground (arith, v a)
Step-Conserved {s} (dial_fails d x x' p now n e) v a = ground (arith, v a)
Step-Conserved {s} (puts before after c now x h) v a = ground (
  arith,
  v a,
  put-places s.pool c now a x,
  ap (count a) h,
  count-append a before (c ∷ after),
  count-append a before after,
)
Step-Conserved {s} (cleans now) v a = ground (arith, v a, clean_tick-places s.pool now a)
Step-Conserved {s} closes v a = ground (arith, v a, close-places s.pool a)

Reach-Inv : {k : Config} {s t : System} → Inv k s → Reach s t → Inv k t
Reach-Inv v here = v
Reach-Inv v (next r st) = Step-Inv st (Reach-Inv v r)

Reach-Conserved : {s t : System} → Conserved s → Reach s t → Conserved t
Reach-Conserved v here = v
Reach-Conserved v (next r st) = Step-Conserved st (Reach-Conserved v r)

start-Inv : (c : Config) → c.max_active ≤ℤ pos max_int64 → Inv (with_defaults c) (start c)
unfolding start new i64
start-Inv c h = ground arith

start-Conserved : (c : Config) → Conserved (start c)
unfolding start new
start-Conserved c a = ground arith

-- After any steps of any threads, the counter `active` is the number of dials under way and of
-- connections held. If `MaxActive` is positive, these and the idle connections together are at
-- most `MaxActive`; and the idle ones are at most `MaxIdle`, or 10 where that was not positive.
pub Reach-limits :
    (c : Config) {t : System}
    → c.max_active ≤ℤ pos max_int64
    → Reach (start c) t
    → (t.pool.active ≡ i64 (pos (t.dialing + length t.held)))
      × (pos 0 <ℤ c.max_active
          → pos (t.dialing + length t.held + length t.pool.idle) ≤ℤ c.max_active)
      × (pos (length t.pool.idle) ≤ℤ (if leb_ℤ c.max_idle (pos 0) then pos 10 else c.max_idle))
unfolding with_defaults
Reach-limits c {t} h r = let v = Reach-Inv (start-Inv c h) r in ground (arith, v)

-- After any steps, a connection that a caller holds is held by that caller alone, stands nowhere
-- else in the callers' hands, is not idle in the pool, and is not closed.
pub Reach-exclusive :
    (k : Config) {t : System} (before after : List Conn) (c : Conn)
    → Reach (start k) t
    → t.held ≡ before ++ c ∷ after
    → (count c.raw (before ++ after) ≡ 0)
      × (count c.raw t.pool.idle ≡ 0)
      × (count c.raw t.pool.shut ≡ 0)
Reach-exclusive k {t} before after c r h =
    let v = Reach-Conserved (start-Conserved k) r c.raw in
    ground (
      arith,
      v,
      ap (count c.raw) h,
      count-append c.raw before (c ∷ after),
      count-append c.raw before after,
    )

-- No connection is lost: after any steps, each one that was ever dialled is held by a caller, idle
-- in the pool, or closed, and just one of these, once; no other connection is anywhere.
pub Reach-places :
    (k : Config) {t : System} (a : ℕ)
    → Reach (start k) t
    → places t a ≡ (if ltb a t.next_raw then 1 else 0)
Reach-places k {t} a r = let v = Reach-Conserved (start-Conserved k) r a in ground (arith, v)
