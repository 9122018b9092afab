-- ===== src/Udp/Server/Readers.antt =====
-- pkg/server/udp/server.go: which sessions have a downstream reader, or are about to have one.
use mproxy.Prelude.{
  ℕ, suc, zero, ◌≡◌, refl, String, Bool, true, false, ◌&&◌, ◌||◌, List, [], ◌∷◌, ◌++◌, arith, none,
  some, Option-cases, inl, inr, eq_iff, ◌==◌, sym, ◌∙◌,
}
use mproxy.Prelude.Maps.{Dict, lookup, insert, delete}
use mproxy.Udp.Session.{Session}
use mproxy.Udp.Session.Limits.{Owned}
use mproxy.Udp.Server.{Serving, stop_reader, is_running, take_nth}

-- A worker has a datagram of this new session in hand, and will start its reader.
abbrev pub is_awaited : ℕ → List Serving → Bool
is_awaited a [] = false
is_awaited a (j ∷ js) = (j.is_new && j.address == a) || is_awaited a js

-- The session's reader runs, or a worker is about to start it.
abbrev pub is_covered : List ℕ → List Serving → ℕ → Bool
is_covered readers serving a = is_running a readers || is_awaited a serving

abbrev pub HaveReaders : (ℕ → Bool) → Dict ℕ → Type 0
HaveReaders p [] = Unit {0}
HaveReaders p ((k, a) ∷ m) = (p a ≡ true) × HaveReaders p m

module _ (p q : ℕ → Bool) where
  pub HaveReaders-mono :
      (m : Dict ℕ) → ((a : ℕ) → p a ≡ true → q a ≡ true) → HaveReaders p m → HaveReaders q m
  HaveReaders-mono [] more h = tt
  HaveReaders-mono ((k, a) ∷ m) more h = (more a h.0, HaveReaders-mono m more h.1)

  -- A reader that ends takes its client's key with it, so no other session loses its reader.
  pub HaveReaders-exit :
      (heap : ℕ → Session) (n a : ℕ) (m : Dict ℕ)
      → ((b : ℕ) → (b == a) ≡ false → p b ≡ true → q b ≡ true)
      → Owned heap n m
      → HaveReaders p m
      → HaveReaders q (delete (heap a).remote_addr m)
  unfolding delete
  HaveReaders-exit heap n a [] more o h = tt
  HaveReaders-exit heap n a ((k, b) ∷ m) more o h =
      ground
        (arith, HaveReaders-exit heap n a m more o.2 h.1, more b, eq_iff k (heap a).remote_addr)

module _ (p : ℕ → Bool) where
  pub HaveReaders-insert :
      (k : String) (a : ℕ) (m : Dict ℕ)
      → p a ≡ true
      → HaveReaders p m
      → HaveReaders p (insert k a m)
  unfolding insert
  HaveReaders-insert k a [] r h = (r, tt)
  HaveReaders-insert k a ((j, b) ∷ m) r h = ground (arith, HaveReaders-insert k a m r h.1)

  pub HaveReaders-delete : (k : String) (m : Dict ℕ) → HaveReaders p m → HaveReaders p (delete k m)
  unfolding delete
  HaveReaders-delete k [] h = tt
  HaveReaders-delete k ((j, b) ∷ m) h = ground (arith, HaveReaders-delete k m h.1)

  pub lookup-HaveReaders :
      (k : String) (a : ℕ) (m : Dict ℕ) → HaveReaders p m → lookup k m ≡ some a → p a ≡ true
  unfolding lookup
  lookup-HaveReaders k a [] r e = cc
  lookup-HaveReaders k a ((j, b) ∷ m) r e = ground (arith, lookup-HaveReaders k a m r.1)

pub is_awaited-append :
    (a : ℕ) (js ks : List Serving) → is_awaited a (js ++ ks) ≡ (is_awaited a js || is_awaited a ks)
is_awaited-append a [] ks = refl
is_awaited-append a (j ∷ js) ks = ground (arith, is_awaited-append a js ks)

-- What a worker takes in hand is the only thing that is missing then.
pub take_nth-is_awaited :
    (a n : ℕ) (js : List Serving) (j : Serving) (rest : List Serving)
    → take_nth n js ≡ some (j, rest)
    → is_awaited a js ≡ ((j.is_new && j.address == a) || is_awaited a rest)
unfolding take_nth
take_nth-is_awaited a n [] j rest e = cc
take_nth-is_awaited a zero (i ∷ js) j rest e = ground (arith, e)
take_nth-is_awaited a (suc n) (i ∷ js) j rest e = elim (Option-cases (take_nth n js)) [
  | inl missing ↦ let none_ : take_nth (suc n) (i ∷ js) ≡ none = rw missing refl in cc
  | inr ((k, ks), found) ↦
      let some_ : take_nth (suc n) (i ∷ js) ≡ some (k, i ∷ ks) = rw found refl in
      let same : some (k, i ∷ ks) ≡ some (j, rest) = sym some_ ∙ e in
      ground (arith, same, take_nth-is_awaited a n js k ks found)
]

pub is_running-stop_reader :
    (a b : ℕ) (readers : List ℕ)
    → (b == a) ≡ false
    → is_running b readers ≡ true
    → is_running b (stop_reader a readers) ≡ true
unfolding is_running stop_reader
is_running-stop_reader a b [] n r = cc
is_running-stop_reader a b (c ∷ cs) n r = ground (arith, is_running-stop_reader a b cs n)
