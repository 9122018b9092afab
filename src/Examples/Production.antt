-- ===== src/Examples/Production.antt =====
-- cmd/production/handlers.go at concrete inputs: one connection in the global bucket, none more
-- for a minute.
use mproxy.Prelude.{◌≡◌, refl, List, [], ◌∷◌, none, some, Option, ℕ, arith, ◌+◌, ◌*◌, ◌≤◌, ◌/◌, inl}
use mproxy.Prelude.Int.{ℤ, pos, negsuc, pos_part, since}
use mproxy.Errors.{Err, wrapped}
use mproxy.Handler.{Context, noop_handler, new_context}
use mproxy.Parser.{upstream}
use mproxy.Parser.Mqtt.{Connect, Packet, connect, disconnect, Read, packet, parse}
use mproxy.RateLimit.{
  new_token_bucket, new_limiter, allow, allow_n, refill, err_rate_limit_exceeded,
}
use mproxy.Production.{Limited, Counted, rate_limited}
use mproxy.Production.Limiting.{connect_all, connect_all-le, parse-limited}

-- One token for each minute.
abbrev slow : ℤ → ℤ → ℤ
slow (pos d) r = pos (d / 60000000000)
slow (negsuc d) r = pos 0

slow-slope : (d : ℕ) → pos_part (slow (pos d) (pos 1)) * 60000000000 ≤ 1 * d
slow-slope d = omega arith

abbrev ctx : Context
ctx = new_context "s1" "10.0.0.1:40000" "tcp"

abbrev calm : Limited (ℕ × ℕ)
calm = record {
  inner = (0, 0);
  per_client = new_limiter (pos 5) (pos 5) (pos 100);
  global = new_token_bucket (pos 1) (pos 1) 0;
  instants = (0, 0, 0);
  limited = [];
}

abbrev attempts : List (Context × ℕ × ℕ × ℕ)
attempts = (ctx, 10, 11, 12) ∷ (ctx, 20, 21, 22) ∷ []

connect_all-le_example :
    (connect_all slow (noop_handler ℕ) calm attempts).inner.0 * 60000000000 + 1 * 0
    ≤ 0 * 60000000000 + 1 * 60000000000 + 1 * 20
connect_all-le_example =
    connect_all-le slow (noop_handler ℕ) (pos 1) 1 60000000000 slow-slope calm attempts 1 0 refl
      (omega arith) (omega arith)

abbrev hello : Connect ℕ
hello = record { client_identifier = "c"; username = "u"; password = 1 ∷ []; others = 0 }

-- The bucket has no token left.
abbrev spent : Limited ℕ
spent = record {
  inner = 0;
  per_client = new_limiter (pos 5) (pos 5) (pos 100);
  global = record { capacity = pos 1; tokens = pos 0; refill_rate = pos 1; last_refill = 0 };
  instants = (10, 11, 12);
  limited = [];
}

abbrev take_packet : List (Packet ℕ) → Read ℕ × List (Packet ℕ)
take_packet [] = (packet (disconnect 0), [])
take_packet (p ∷ ps) = (packet p, ps)

abbrev keep : List (Packet ℕ) → Packet ℕ → List (Packet ℕ) × Option Err
keep w p = (p ∷ w, none)

parse-limited_example :
    let o =
      parse
        (rate_limited slow (noop_handler ℕ))
        take_packet
        keep
        (connect hello ∷ [])
        upstream
        spent
        ctx
        [] in
    (o.out ≡ [])
    × (o.state.inner ≡ 0)
    × (o.error ≡ some (wrapped "connection authorization failed" err_rate_limit_exceeded))
unfolding allow allow_n refill since
parse-limited_example =
    parse-limited slow (noop_handler ℕ) take_packet keep (connect hello ∷ []) [] hello spent ctx []
      refl (inl refl)

abbrev counted : Counted ℕ
counted = record { inner = 0; log = [] }
