-- ===== src/Examples/Pool.antt =====
-- pkg/pool/pool.go at concrete inputs: two active and two idle connections at most.
use mproxy.Prelude.{◌≡◌, refl, false, [], ◌∷◌, ◌+◌, arith, none, length, if◌then◌else◌}
use mproxy.Prelude.Int.{pos, negsuc, i64, ◌+ℤ◌, ◌-ℤ◌, ◌≤ℤ◌, ◌<ℤ◌, since, leb_ℤ}
use mproxy.Pool.{
  Config, Conn, Pool, new, is_valid, returns, dials, begin_get, take_valid, put, end_dial,
}
use mproxy.Pool.Counting.{count}
use mproxy.Pool.System.{System, get_dials, dial_connects, Reach, here, next, start, places}
use mproxy.Pool.Conservation.{Reach-limits, Reach-exclusive, Reach-places}
use mproxy.Pool.Sharing.{Reason, begin_get-Reason, put-put-shares}

abbrev config : Config
config = record {
  max_idle = pos 2;
  max_active = pos 2;
  idle_timeout = pos 300;
  max_conn_lifetime = pos 1000;
  dial_timeout = pos 10;
  wait_timeout = pos 0;
}

abbrev conn : Conn
conn = record { raw = 0; created_at = 7 }

abbrev dialing_pool : Pool
dialing_pool = (begin_get (new config) 5).0

abbrev held : System
held = record { pool = dialing_pool; dialing = 0; held = conn ∷ []; next_raw = 1 }

begun : begin_get (start config).pool 5 ≡ (dialing_pool, dials)
unfolding begin_get take_valid start new i64 ◌+ℤ◌
begun = refl

-- One connection is dialled, and its caller holds it.
reaches_held : Reach (start config) held
unfolding start end_dial
reaches_held =
    next (next here (get_dials dialing_pool 5 begun))
      (dial_connects 0 conn dialing_pool 7 (omega arith) refl)

Reach-limits_example :
    (held.pool.active ≡ i64 (pos 1))
    × (pos 0 <ℤ pos 2 → pos (1 + length held.pool.idle) ≤ℤ pos 2)
    × (pos (length held.pool.idle) ≤ℤ (if leb_ℤ (pos 2) (pos 0) then pos 10 else pos 2))
Reach-limits_example = Reach-limits config (omega arith) reaches_held

Reach-exclusive_example :
    (count 0 [] ≡ 0) × (count 0 held.pool.idle ≡ 0) × (count 0 held.pool.shut ≡ 0)
Reach-exclusive_example = Reach-exclusive config [] [] conn reaches_held refl

Reach-places_example : places held 0 ≡ 1
Reach-places_example = Reach-places config 0 reaches_held

-- An open pool with one connection out.
abbrev pool : Pool
pool = record {
  idle = [];
  active = pos 1;
  config = config;
  closed = false;
  token = false;
  shut = [];
}

begin_get-Reason_example : Reason pool 20 dials
unfolding begin_get take_valid
begin_get-Reason_example = begin_get-Reason pool 20

put-put-shares_example :
    let q = (put (put pool conn 20 none).0 conn 20 none).0 in
    (q.active ≡ negsuc 0)
    × ((begin_get q 20).1 ≡ returns conn)
    × ((begin_get (begin_get q 20).0 20).1 ≡ returns conn)
unfolding is_valid since i64 ◌-ℤ◌
put-put-shares_example = put-put-shares pool conn 20 none none refl refl (omega arith)
