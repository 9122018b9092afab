-- ===== src/Pool/Counting.antt =====
-- pkg/pool/pool.go: where the connections go in the loops over the idle ones.
use mproxy.Prelude.{
  ℕ, ◌+◌, ◌≤◌, ◌≡◌, refl, List, [], ◌∷◌, ◌++◌, arith, Option, none, some, if◌then◌else◌, length,
  ◌==◌,
}
use mproxy.Prelude.Int.{pos, ◌+ℤ◌, ◌-ℤ◌, i64, inc, dec}
use mproxy.Pool.{Config, Conn, take_valid, sweep, close_all}

-- How often a connection stands in a list.
abbrev pub count : ℕ → List Conn → ℕ
count a [] = 0
count a (c ∷ cs) = (if c.raw == a then 1 else 0) + count a cs

pub count-append : (a : ℕ) (cs ds : List Conn) → count a (cs ++ ds) ≡ count a cs + count a ds
count-append a [] ds = omega arith
count-append a (c ∷ cs) ds = omega (arith, count-append a cs ds)

pub inc-i64 : (n : ℕ) → inc (i64 (pos n)) ≡ i64 (pos (n + 1))
unfolding i64 ◌+ℤ◌
inc-i64 n = ground arith

pub dec-i64 : (n : ℕ) → dec (i64 (pos (n + 1))) ≡ i64 (pos n)
unfolding i64 ◌-ℤ◌
dec-i64 n = ground arith

abbrev pub count_found : ℕ → Option Conn → ℕ
count_found a none = 0
count_found a (some c) = count a (c ∷ [])

pub take_valid-count :
    (c : Config) (now a : ℕ) (idle shut : List Conn)
    → let r = take_valid c now idle shut in
      count_found a r.found + count a r.left + count a r.closing ≡ count a idle + count a shut
unfolding take_valid
take_valid-count c now a [] shut = omega arith
take_valid-count c now a (conn ∷ rest) shut =
    ground (arith, take_valid-count c now a rest (conn ∷ shut))

-- A connection that is found is one of the idle ones; if none is found then none is left.
abbrev pub found_length : Option Conn → ℕ
found_length none = 0
found_length (some c) = 1

pub take_valid-length :
    (c : Config) (now : ℕ) (idle shut : List Conn)
    → let r = take_valid c now idle shut in
      (found_length r.found + length r.left ≤ length idle) × ((r.found ≡ none) → length r.left ≡ 0)
unfolding take_valid
take_valid-length c now [] shut = (omega arith, λ e. refl)
take_valid-length c now (conn ∷ rest) shut =
    ground (arith, take_valid-length c now rest (conn ∷ shut))

pub sweep-count :
    (c : Config) (now a : ℕ) (idle shut : List Conn)
    → count a (sweep c now idle shut).0 + count a (sweep c now idle shut).1
      ≡ count a idle + count a shut
unfolding sweep
sweep-count c now a [] shut = omega arith
sweep-count c now a (conn ∷ rest) shut = ground (arith, sweep-count c now a rest shut)

pub sweep-length :
    (c : Config) (now : ℕ) (idle shut : List Conn) → length (sweep c now idle shut).0 ≤ length idle
unfolding sweep
sweep-length c now [] shut = omega arith
sweep-length c now (conn ∷ rest) shut = ground (arith, sweep-length c now rest shut)

pub close_all-count :
    (a : ℕ) (idle shut : List Conn) → count a (close_all idle shut) ≡ count a idle + count a shut
unfolding close_all
close_all-count a [] shut = omega arith
close_all-count a (c ∷ rest) shut = omega (arith, close_all-count a rest shut)
