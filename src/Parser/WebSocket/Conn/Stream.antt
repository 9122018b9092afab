-- ===== src/Parser/WebSocket/Conn/Stream.antt =====
-- pkg/parser/websocket/conn.go: the bytes that `Read` gives are those of the messages.
use mathlib.Core.List.{append_assoc}
use mproxy.Prelude.{
  ℕ, zero, suc, ◌≤◌, ◌<◌, ◌≡◌, refl, ap, sym, ◌∙◌, none, some, List, [], ◌∷◌, ◌++◌, length, take,
  drop, take-drop, length-take, flatten, arith, Option-cases, inl, inr,
}
use mproxy.Handler.{Bytes}
use mproxy.Parser.WebSocket.Conn.{
  Ending, more, at_end, broken, Conn, Result, answer, read_next, read,
}

-- What the messages still hold.
abbrev pub content : Conn → Bytes
content c = (elim c.reader [ none ↦ [] | some m ↦ m ]) ++ flatten c.incoming

-- What the documentation of `io.Reader` says of a message's reader: it fills no more than the
-- buffer, it ends when all is read, and it gives something or an error to a buffer with room.
pub record IsReader (chunk : Bytes → ℕ → ℕ × Ending) : Type 0 where
  pub bound : (m : Bytes) (n : ℕ) → ((chunk m n).0 ≤ n) × ((chunk m n).0 ≤ length m)
  pub whole : (m : Bytes) (n : ℕ) → (chunk m n).1 ≡ at_end → (chunk m n).0 ≡ length m
  pub progress : (m : Bytes) (n : ℕ) → 0 < n → (chunk m n).1 ≡ more → 0 < (chunk m n).0

-- What one call of `Read` may rely on: nothing is lost, the buffer is not overrun, a buffer with
-- room is given something or an error, and with no error of a message's reader the error is that
-- of the connection, after all has been read.
abbrev pub Kept : Bytes → ℕ → Result → Type 0
Kept stream n r =
    (r.bytes ++ content r.conn ≡ stream)
    × (length r.bytes ≤ n)
    × (0 < n → r.error ≡ none → 0 < length r.bytes)

length-zero : {A : Type 0} (xs : List A) → length xs ≡ 0 → xs ≡ []
length-zero [] h = refl
length-zero (x ∷ xs) h = absurd (omega arith)

drop-length : {A : Type 0} (xs : List A) → drop (length xs) xs ≡ []
drop-length [] = refl
drop-length (x ∷ xs) = drop-length xs

-- Cutting a message and reading on gives what there was.
cut : (k : ℕ) (m rest : Bytes) → take k m ++ (drop k m ++ rest) ≡ m ++ rest
cut k m rest = sym (append_assoc (take k m) (drop k m) rest) ∙ ap (λ l. l ++ rest) (take-drop k m)

whole_message : (m rest : Bytes) → take (length m) m ++ rest ≡ m ++ rest
whole_message m rest =
    ap (λ l. take (length m) m ++ (l ++ rest)) (sym (drop-length m)) ∙ cut (length m) m rest

answer-Kept :
    (chunk : Bytes → ℕ → ℕ × Ending) (c : Conn) (m : Bytes) (k : ℕ) (e : Ending) (n : ℕ)
    (next : Result)
    → k ≤ n
    → k ≤ length m
    → (e ≡ at_end → k ≡ length m)
    → (0 < n → e ≡ more → 0 < k)
    → Kept (flatten c.incoming) n next
    → Kept (m ++ flatten c.incoming) n (answer chunk c m (k, e) next)
unfolding answer
answer-Kept chunk c m k more n next b l w p h = (
  cut k m (flatten c.incoming),
  omega (arith, length-take k m),
  λ q r. omega (arith, length-take k m, p q refl),
)
answer-Kept chunk c m k (broken x) n next b l w p h =
    (cut k m (flatten c.incoming), omega (arith, length-take k m), λ q r. cc)
answer-Kept chunk c m zero at_end n next b l w p h =
    let empty : m ≡ [] = length-zero m (sym (w refl)) in rw empty h
answer-Kept chunk c m (suc j) at_end n next b l w p h =
    let e : suc j ≡ length m = w refl in
    let all : take (suc j) m ++ flatten c.incoming ≡ m ++ flatten c.incoming =
      ap (λ i. take i m ++ flatten c.incoming) e ∙ whole_message m (flatten c.incoming) in
    ground (arith, all, length-take (suc j) m, b, l)

module _ (chunk : Bytes → ℕ → ℕ × Ending) (laws : IsReader chunk) where
  chunk-Kept :
      (c : Conn) (m : Bytes) (n : ℕ) (next : Result)
      → Kept (flatten c.incoming) n next
      → Kept (m ++ flatten c.incoming) n (answer chunk c m (chunk m n) next)
  chunk-Kept c m n next h =
      let k = laws.bound m n in
      answer-Kept chunk c m (chunk m n).0 (chunk m n).1 n next k.0 k.1 (laws.whole m n)
        (laws.progress m n) h

  read_next-Kept :
      (c : Conn) (ms : List Bytes) (n : ℕ) → Kept (flatten ms) n (read_next chunk c ms n)
  unfolding read_next
  read_next-Kept c [] n = (refl, omega arith, λ q r. cc)
  read_next-Kept c (m ∷ ms) n =
      chunk-Kept (record c { incoming = ms }) m n (read_next chunk c ms n) (read_next-Kept c ms n)

  -- One call of `Read` loses nothing and invents nothing: what it gives and what the connection
  -- still holds are together the bytes that the messages held, empty messages and the bounds
  -- between messages leaving no trace. It gives no more than the buffer takes, and to a buffer
  -- with room either a byte or an error.
  pub read-Kept : (c : Conn) (n : ℕ) → Kept (content c) n (read chunk c n)
  unfolding read
  read-Kept c n = elim (Option-cases c.reader) [
    | inl e ↦ rw (e, read) (read_next-Kept c c.incoming n)
    | inr (m, e) ↦
        rw (e, read)
          (chunk-Kept c m n (read_next chunk c c.incoming n) (read_next-Kept c c.incoming n))
  ]
