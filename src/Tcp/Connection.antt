-- ===== src/Tcp/Connection.antt =====
-- pkg/server/tcp/server.go: a connection that `handleConn` serves, and the list of them.
use mproxy.Prelude.{
  ℕ, String, Bool, true, false, Option, none, some, List, [], ◌∷◌, ◌==◌, if◌then◌else◌,
}
use mproxy.Errors.{Err, is}
use mproxy.Handler.{Context, new_context}
use mproxy.Parser.{Direction, upstream, downstream}

-- A goroutine of `handleConn`. `up_done` and `down_done` tell which streams have sent their error,
-- and `stream_err` is the first of these that is not the end of the input.
pub record Connection : Type 0 where
  pub id : ℕ
  pub context : Context
  pub streaming : Bool
  pub up_done : Bool
  pub down_done : Bool
  pub stream_err : Option Err

unfoldable pub find_conn : ℕ → List Connection → Option Connection
find_conn a [] = none
find_conn a (c ∷ cs) = if c.id == a then some c else find_conn a cs

unfoldable pub set_conn : Connection → List Connection → List Connection
set_conn c [] = []
set_conn c (d ∷ ds) = let rest = set_conn c ds in if d.id == c.id then c ∷ ds else d ∷ rest

unfoldable pub drop_conn : ℕ → List Connection → List Connection
drop_conn a [] = []
drop_conn a (c ∷ cs) = let rest = drop_conn a cs in if c.id == a then cs else c ∷ rest

-- Where a parser's writer sends: to the backend of a connection, or to its client.
pub data Target : Type 0 where
  backend_of : ℕ → Target
  client_of : ℕ → Target

unfoldable pub target : ℕ → Direction → Target
target a upstream = backend_of a
target a downstream = client_of a

-- What the handshake and the dialling of the backend give.
pub data Started : Type 0 where
  handshake_failed : Err → Started
  undialed : Err → Started
  dialed : Option ℕ → Started

-- What a round does before it parses: it looks at the context, which may be done, and sets the
-- deadlines.
pub data Deadlines : Type 0 where
  deadlines_set context_done : Deadlines
  read_deadline_failed write_deadline_failed : Err → Deadlines

unfoldable pub is_done : Connection → Direction → Bool
is_done c upstream = c.up_done
is_done c downstream = c.down_done

set_done : Connection → Direction → Connection
set_done c upstream = record c { up_done = true }
set_done c downstream = record c { down_done = true }

-- What the loop over `errCh` makes of an error.
note_error : Option Err → Err → Option Err
note_error none e = if is "io" "EOF" (some e) then none else some e
note_error (some first) e = some first

unfoldable pub end_stream : Connection → Direction → Err → Connection
unfolding set_done note_error
end_stream c dir e = set_done (record c { stream_err = note_error c.stream_err e }) dir

unfoldable pub fresh_connection : ℕ → String → String → Connection
fresh_connection a remote_addr id = record {
  id = a;
  context = new_context id remote_addr "tcp";
  streaming = false;
  up_done = false;
  down_done = false;
  stream_err = none;
}
