-- ===== src/Parser/WebSocket/Conn.antt =====
-- pkg/parser/websocket/conn.go: a connection of WebSocket messages as a stream of bytes. The
-- messages and their readers belong to gorilla/websocket: `chunk m n` is what the reader of a
-- message with `m` left does with a buffer of `n` bytes, the number that it fills and how it ends.
pub mod Stream
pub mod Delivery
use mproxy.Prelude.{
  ℕ, zero, suc, ◌+◌, ◌≤◌, ◌<◌, ◌≡◌, Bool, Option, none, some, List, [], ◌∷◌, ◌++◌, length, take,
  drop, ◌==◌, if◌then◌else◌,
}
use mproxy.Errors.{Err}
use mproxy.Handler.{Bytes}

-- `more` is a nil error, `at_end` is `io.EOF`.
pub data Ending : Type 0 where
  more at_end : Ending
  broken : Err → Ending

-- `reader` is what is left of the current message. `incoming` are the messages that follow, and
-- `failure` is the error of `NextReader` after them. `outgoing` are the messages sent, the last one
-- first.
pub record Conn : Type 0 where
  pub reader : Option Bytes
  pub incoming : List Bytes
  pub failure : Err
  pub outgoing : List Bytes

pub record Result : Type 0 where
  pub bytes : Bytes
  pub error : Option Err
  pub conn : Conn

-- `NewConn`.
unfoldable pub new_conn : List Bytes → Err → Conn
new_conn incoming failure = record {
  reader = none;
  incoming = incoming;
  failure = failure;
  outgoing = [];
}

-- `Write`: one binary message for each call, or the error of `WriteMessage`.
unfoldable pub write : Conn → Bytes → Option Err → Conn × ℕ × Option Err
write c p none = (record c { outgoing = p ∷ c.outgoing }, length p, none)
write c p (some e) = (c, 0, some e)

module _ (chunk : Bytes → ℕ → ℕ × Ending) where
  -- What a round of the loop of `Read` makes of the reader's answer; `next` is its next round.
  unfoldable pub answer : Conn → Bytes → ℕ × Ending → Result → Result
  answer c m (k, more) next = record {
    bytes = take k m;
    error = none;
    conn = record c { reader = some (drop k m) };
  }
  answer c m (k, broken e) next = record {
    bytes = take k m;
    error = some e;
    conn = record c { reader = some (drop k m) };
  }
  answer c m (k, at_end) next =
      if k == 0
      then next
      else record { bytes = take k m; error = none; conn = record c { reader = none } }

  -- The loop from a round that has no reader: the messages are fewer in each further round.
  unfoldable pub read_next : Conn → List Bytes → ℕ → Result
  unfolding answer
  read_next c [] n = record {
    bytes = [];
    error = some c.failure;
    conn = record c { reader = none; incoming = [] };
  }
  read_next c (m ∷ ms) n =
      let later = read_next c ms n in answer (record c { incoming = ms }) m (chunk m n) later

  -- `Read` with a buffer of `n` bytes.
  unfoldable pub read : Conn → ℕ → Result
  read c n = elim c.reader [
    | none ↦ read_next c c.incoming n
    | some m ↦ answer c m (chunk m n) (read_next c c.incoming n)
  ]

  -- What a client of the connection does, which is not in conn.go: it calls `Read` again and again with
  -- buffers of one size, until it fails or there are enough calls.
  unfoldable pub read_all : ℕ → Conn → ℕ → Bytes × Option Err × Conn
  read_all zero c n = ([], none, c)
  read_all (suc calls) c n =
      let r = read c n in
      elim r.error [
        | some e ↦ (r.bytes, some e, r.conn)
        | none ↦ let (later, e, c') = read_all calls r.conn n in (r.bytes ++ later, e, c')
      ]
