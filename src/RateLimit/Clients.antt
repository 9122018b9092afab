-- ===== src/RateLimit/Clients.antt =====
-- pkg/ratelimit/ratelimit.go: the limiter against one independent bucket for each client, and the
-- number of the clients.
use mproxy.Prelude.{
  ℕ, ◌≡◌, refl, String, Bool, false, List, [], ◌∷◌, arith, Option, none, some, if◌then◌else◌,
  Option-cases, inl, inr, str_eq, eq_iff, length, ◌∙◌, ap,
}
use mproxy.Prelude.Int.{ℤ, pos, ◌+ℤ◌, ◌≤ℤ◌, ◌<ℤ◌, i64_id, max_int64, leb_ℤ}
use mproxy.Prelude.Maps.{
  lookup, insert, lookup-insert, length-insert_new, length-insert_old, length-delete-le,
}
use mproxy.RateLimit.{
  TokenBucket, new_token_bucket, allow_n, Limiter, remove, cleanup, find_or_add, spend,
  add_and_spend, limiter_allow_n,
}

-- What the limiter is to do for one client, given its bucket, if it has one, and whether the
-- limiter is full.
unfoldable pub serve :
    (ℤ → ℤ → ℤ) → Limiter → Option TokenBucket → ℤ → ℕ → ℕ → Option TokenBucket × Bool
serve added l (some tb) n now now' =
    let (tb', allowed) = allow_n added tb n now' in (some tb', allowed)
serve added l none n now now' =
    if leb_ℤ l.max_clients (pos (length l.limiters))
    then (none, false)
    else let (tb', allowed) =
        allow_n added (new_token_bucket l.capacity l.refill_rate now) n now' in
      (some tb', allowed)

pub data LimiterEvent : Type 0 where
  allows : String → ℤ → ℕ → ℕ → LimiterEvent
  removes : String → LimiterEvent
  cleans : LimiterEvent

module _ (added : ℤ → ℤ → ℤ) where
  -- `Limiter.AllowN` answers by the client's own bucket, makes one for a new client unless the
  -- limiter is full, stores the bucket's new state, and touches the bucket of no other client.
  limiter_allow_n-serve :
      (l : Limiter) (client j : String) (n : ℤ) (now now' : ℕ)
      → ((limiter_allow_n added l client n now now').1
          ≡ (serve added l (lookup client l.limiters) n now now').1)
        × (lookup j (limiter_allow_n added l client n now now').0.limiters ≡ (
            if str_eq client j
            then (serve added l (lookup client l.limiters) n now now').0
            else lookup j l.limiters))
  unfolding limiter_allow_n serve spend add_and_spend find_or_add
  limiter_allow_n-serve l client j n now now' = elim (Option-cases (lookup client l.limiters)) [
    | inl e ↦
        let tb = new_token_bucket l.capacity l.refill_rate now in
        let tb' = (allow_n added tb n now').0 in
        rw (e, limiter_allow_n)
          (ground (
            arith,
            e,
            eq_iff client j,
            lookup-insert client j tb l.limiters,
            lookup-insert client j tb' (insert client tb l.limiters),
          ))
    | inr (tb, e) ↦
        rw (e, limiter_allow_n)
          (refl, lookup-insert client j (allow_n added tb n now').0 l.limiters)
  ]

  unfoldable pub handle : Limiter → LimiterEvent → Limiter
  handle l (allows client n now now') = (limiter_allow_n added l client n now now').0
  handle l (removes client) = remove l client
  handle l cleans = cleanup l

  unfoldable pub handle_all : Limiter → List LimiterEvent → Limiter
  handle_all l [] = l
  handle_all l (e ∷ es) = handle_all (handle l e) es

-- There are at most `max_clients` clients, and twice that number is still an `int`.
pub record IsBounded (l : Limiter) : Type 0 where
  pub positive : pos 0 <ℤ l.max_clients
  pub small : l.max_clients +ℤ l.max_clients ≤ℤ pos max_int64
  pub clients : pos (length l.limiters) ≤ℤ l.max_clients

-- No client is removed by the program's own calls.
abbrev pub NoRemoves : List LimiterEvent → Type 0
NoRemoves [] = Unit {0}
NoRemoves (removes client ∷ es) = ⊥
NoRemoves (allows client n now now' ∷ es) = NoRemoves es
NoRemoves (cleans ∷ es) = NoRemoves es

-- A full limiter that does not know a client.
pub record Excludes (l : Limiter) (client : String) : Type 0 where
  pub bounded : IsBounded l
  pub full : l.max_clients ≤ℤ pos (length l.limiters)
  pub unknown : lookup client l.limiters ≡ none

-- Within the bound the cleanup never removes a client: it waits for more than twice as many.
cleanup-limiters : (l : Limiter) → IsBounded l → (cleanup l).limiters ≡ l.limiters
unfolding cleanup ◌+ℤ◌
cleanup-limiters l v = ground (arith, i64_id (l.max_clients +ℤ l.max_clients))

module _ (added : ℤ → ℤ → ℤ) where
  limiter_allow_n-IsBounded :
      (l : Limiter) (client : String) (n : ℤ) (now now' : ℕ)
      → IsBounded l
      → IsBounded (limiter_allow_n added l client n now now').0
  unfolding limiter_allow_n spend add_and_spend find_or_add
  limiter_allow_n-IsBounded l client n now now' v = elim (Option-cases (lookup client l.limiters)) [
    | inl e ↦
        let tb = new_token_bucket l.capacity l.refill_rate now in
        let tb' = (allow_n added tb n now').0 in
        rw (e, limiter_allow_n)
          (ground (
            arith,
            e,
            v,
            length-insert_new client tb l.limiters,
            lookup-insert client client tb l.limiters,
            length-insert_old client tb' tb (insert client tb l.limiters),
            eq_iff client client,
          ))
    | inr (tb, e) ↦
        rw (e, limiter_allow_n)
          (ground (arith, v, length-insert_old client (allow_n added tb n now').0 tb l.limiters))
  ]

  remove-IsBounded : (l : Limiter) (client : String) → IsBounded l → IsBounded (remove l client)
  unfolding remove
  remove-IsBounded l client v = ground (arith, v, length-delete-le client l.limiters)

  cleanup-IsBounded : (l : Limiter) → IsBounded l → IsBounded (cleanup l)
  unfolding cleanup
  cleanup-IsBounded l v = ground (arith, v, cleanup-limiters l v)

  handle-IsBounded : (l : Limiter) (e : LimiterEvent) → IsBounded l → IsBounded (handle added l e)
  unfolding handle
  handle-IsBounded l (allows client n now now') v = limiter_allow_n-IsBounded l client n now now' v
  handle-IsBounded l (removes client) v = remove-IsBounded l client v
  handle-IsBounded l cleans v = cleanup-IsBounded l v

  handle_all-IsBounded :
      (l : Limiter) (es : List LimiterEvent) → IsBounded l → IsBounded (handle_all added l es)
  unfolding handle_all
  handle_all-IsBounded l [] v = v
  handle_all-IsBounded l (e ∷ es) v =
      handle_all-IsBounded (handle added l e) es (handle-IsBounded l e v)

  -- After any requests, removals and cleanups there are at most `max_clients` clients, and so the
  -- next cleanup removes none of them: its loop is never reached.
  pub handle_all-cleanup :
      (l : Limiter) (es : List LimiterEvent)
      → IsBounded l
      → (pos (length (handle_all added l es).limiters) ≤ℤ (handle_all added l es).max_clients)
        × ((cleanup (handle_all added l es)).limiters ≡ (handle_all added l es).limiters)
  handle_all-cleanup l es v =
      let w = handle_all-IsBounded l es v in (w.clients, cleanup-limiters (handle_all added l es) w)

  allows-Excludes :
      (l : Limiter) (c client : String) (n : ℤ) (now now' : ℕ)
      → Excludes l c
      → Excludes (limiter_allow_n added l client n now now').0 c
  unfolding limiter_allow_n spend add_and_spend find_or_add
  allows-Excludes l c client n now now' x = elim (Option-cases (lookup client l.limiters)) [
    | inl e ↦ rw (e, limiter_allow_n) (ground (arith, e, x))
    | inr (tb, e) ↦
        let tb' = (allow_n added tb n now').0 in
        let v = limiter_allow_n-IsBounded l client n now now' x.bounded in
        record {
          bounded = v;
          full =
              rw (e, limiter_allow_n)
                (ground (arith, x, length-insert_old client tb' tb l.limiters));
          unknown =
              rw (e, limiter_allow_n)
                (ground (arith, x, eq_iff client c, lookup-insert client c tb' l.limiters));
        }
  ]

  handle-Excludes :
      (l : Limiter) (c : String) (e : LimiterEvent)
      → NoRemoves (e ∷ [])
      → Excludes l c
      → Excludes (handle added l e) c
  unfolding handle cleanup
  handle-Excludes l c (allows client n now now') h x = allows-Excludes l c client n now now' x
  handle-Excludes l c (removes client) h x = absurd h
  handle-Excludes l c cleans h x = record {
    bounded = cleanup-IsBounded l x.bounded;
    full = ground (arith, x, ap length (cleanup-limiters l x.bounded));
    unknown = ap (lookup c) (cleanup-limiters l x.bounded) ∙ x.unknown;
  }

  handle_all-Excludes :
      (l : Limiter) (c : String) (es : List LimiterEvent)
      → NoRemoves es
      → Excludes l c
      → Excludes (handle_all added l es) c
  unfolding handle_all
  handle_all-Excludes l c [] h x = x
  handle_all-Excludes l c (allows client n now now' ∷ es) h x =
      handle_all-Excludes (handle added l (allows client n now now')) c es h
        (handle-Excludes l c (allows client n now now') tt x)
  handle_all-Excludes l c (removes client ∷ es) h x = absurd h
  handle_all-Excludes l c (cleans ∷ es) h x =
      handle_all-Excludes (handle added l cleans) c es h (handle-Excludes l c cleans tt x)

  -- Once the limiter is full, a client that it does not know is refused whatever it asks for,
  -- after any number of requests of all clients and of cleanups, until `Remove` is called.
  pub limiter_allow_n-excluded :
      (l : Limiter) (c : String) (es : List LimiterEvent) (n : ℤ) (now now' : ℕ)
      → NoRemoves es
      → Excludes l c
      → (limiter_allow_n added (handle_all added l es) c n now now').1 ≡ false
  unfolding limiter_allow_n find_or_add add_and_spend
  limiter_allow_n-excluded l c es n now now' h x =
      let y = handle_all-Excludes l c es h x in
      rw (y.unknown, limiter_allow_n) (rw (y.unknown, find_or_add) (ground (arith, y)))
