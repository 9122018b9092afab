-- ===== src/Parser/WebSocket/Conn/Delivery.antt =====
-- pkg/parser/websocket/conn.go: what is written at one end is read at the other.
use mathlib.Core.List.{reverse, reverse_aux, reverse-reverse}
use mproxy.Prelude.{
  ℕ, zero, suc, ◌+◌, ◌<◌, ◌≡◌, ◌≢◌, refl, ap, sym, ◌∙◌, none, some, List, [], ◌∷◌, ◌++◌, length,
  flatten, length-append, ◌==◌, arith, Option-cases, Bool-cases, inl, inr,
}
use mproxy.Errors.{Err}
use mproxy.Handler.{Bytes}
use mproxy.Parser.WebSocket.Conn.{
  Ending, more, at_end, broken, Conn, Result, new_conn, write, answer, read_next, read, read_all,
}
use mproxy.Parser.WebSocket.Conn.Stream.{content, IsReader, read-Kept}

-- No message breaks off.
abbrev pub IsUnbroken : (Bytes → ℕ → ℕ × Ending) → Type 0
IsUnbroken chunk = (m : Bytes) (n : ℕ) (e : Err) → (chunk m n).1 ≢ broken e

-- A `Write` for each part of a stream, all of them accepted by the network.
unfoldable pub write_all : Conn → List Bytes → Conn
write_all c [] = c
write_all c (p ∷ ps) = write_all (write c p none).0 ps

outgoing-write_all :
    (c : Conn) (ps : List Bytes) → (write_all c ps).outgoing ≡ reverse_aux ps c.outgoing
unfolding write_all write
outgoing-write_all c [] = refl
outgoing-write_all c (p ∷ ps) = outgoing-write_all (write c p none).0 ps

-- The only error is that of the connection, after the last message.
abbrev Ends : Err → Result → Type 0
Ends failure r =
    (r.conn.failure ≡ failure)
    × ((e : Err) → r.error ≡ some e → (e ≡ failure) × (r.bytes ≡ []) × (content r.conn ≡ []))

answer-Ends :
    (chunk : Bytes → ℕ → ℕ × Ending) (c : Conn) (m : Bytes) (k : ℕ) (e : Ending) (next : Result)
    → ((x : Err) → e ≢ broken x)
    → Ends c.failure next
    → Ends c.failure (answer chunk c m (k, e) next)
unfolding answer
answer-Ends chunk c m k more next u h = (refl, λ e q. cc)
answer-Ends chunk c m k (broken x) next u h = absurd (u x refl)
answer-Ends chunk c m k at_end next u h = elim (Bool-cases (k == 0)) [
  | inl z ↦ rw z h
  | inr z ↦ rw z (refl, λ e q. cc)
]

module _ (chunk : Bytes → ℕ → ℕ × Ending) (laws : IsReader chunk) (whole : IsUnbroken chunk) where
  read_next-Ends : (c : Conn) (ms : List Bytes) (n : ℕ) → Ends c.failure (read_next chunk c ms n)
  unfolding read_next
  read_next-Ends c [] n = (refl, λ e q. ground (arith, q))
  read_next-Ends c (m ∷ ms) n =
      answer-Ends chunk (record c { incoming = ms }) m (chunk m n).0 (chunk m n).1
        (read_next chunk c ms n) (whole m n) (read_next-Ends c ms n)

  read-Ends : (c : Conn) (n : ℕ) → Ends c.failure (read chunk c n)
  unfolding read
  read-Ends c n = elim (Option-cases c.reader) [
    | inl e ↦ rw (e, read) (read_next-Ends c c.incoming n)
    | inr (m, e) ↦
        rw (e, read)
          (answer-Ends chunk c m (chunk m n).0 (chunk m n).1 (read_next chunk c c.incoming n)
            (whole m n) (read_next-Ends c c.incoming n))
  ]

  -- A loop of calls of `Read` ends, from any state of the connection: with a buffer that has room, and
  -- for message readers that keep to their documentation and do not break off, one call more than the
  -- messages still hold bytes is enough to come to the error of the connection, and the calls before
  -- it give just those bytes.
  pub read_all-content :
      (calls : ℕ) (c : Conn) (n : ℕ)
      → 0 < n
      → length (content c) < calls
      → let (bytes, e, c') = read_all chunk calls c n in (bytes ≡ content c) × (e ≡ some c.failure)
  unfolding read_all
  read_all-content zero c n p h = absurd (omega arith)
  read_all-content (suc calls) c n p h =
      let r = read chunk c n in
      let kept = read-Kept chunk laws c n in
      let ends = read-Ends c n in
      let long : length r.bytes + length (content r.conn) ≡ length (content c) =
        sym (length-append r.bytes (content r.conn)) ∙ ap length kept.0 in
      elim (Option-cases r.error) [
        | inl e ↦
            let rest = read_all-content calls r.conn n p (omega (arith, long, kept.2 p e, h)) in
            rw (e, read_all) (ap (λ l. r.bytes ++ l) rest.0 ∙ kept.0, rest.1 ∙ ap some ends.0)
        | inr (x, e) ↦
            let f = ends.1 x e in
            let nothing : content c ≡ [] = sym kept.0 ∙ ap (λ l. l ++ content r.conn) f.1 ∙ f.2 in
            rw (e, read_all) (f.1 ∙ sym nothing, ap some f.0)
      ]

  -- Bytes arrive as they were written. However the sender cuts its stream into calls of `Write`,
  -- empty ones among them, and whatever positive size the receiver's buffer has: reading the
  -- messages that were sent gives the bytes of the writes, in order, and then the error with which
  -- the connection ends; one call of `Read` more than there are bytes is enough.
  pub write_all-read_all :
      (ps : List Bytes) (closing failure : Err) (n : ℕ)
      → 0 < n
      → let sender = write_all (new_conn [] closing) ps in
        let received =
          read_all chunk (length (flatten ps) + 1) (new_conn (reverse sender.outgoing) failure) n in
        (received.0 ≡ flatten ps) × (received.1 ≡ some failure)
  unfolding new_conn
  write_all-read_all ps closing failure n p =
      rw (outgoing-write_all (new_conn [] closing) ps, reverse-reverse ps)
        (read_all-content (length (flatten ps) + 1) (new_conn ps failure) n p (omega arith))
