-- ===== src/Parser.antt =====
-- pkg/parser/parser.go: the direction of a packet, and what a parser of a protocol gives back.
pub mod Mqtt
pub mod Coap
pub mod Http
pub mod WebSocket
use mproxy.Prelude.{String, Option}
use mproxy.Errors.{Err}
use mproxy.Handler.{Context}

pub data Direction : Type 0 where
  upstream downstream : Direction

-- `String()`; a direction has no third value here.
pub to_string : Direction → String
to_string upstream = "upstream"
to_string downstream = "downstream"

-- What `Parse` leaves: the handler's state, the context, the reader, the writer, and the error.
pub record Outcome (S R W : Type 0) : Type 0 where
  pub state : S
  pub hctx : Context
  pub inp : R
  pub out : W
  pub error : Option Err

-- The interface `Parser`, with the handler fixed: one packet from a reader of type `R` to a writer
-- of type `W`.
abbrev pub Parser : Type 0 → Type 0 → Type 0 → Type 0
Parser S R W = R → Direction → S → Context → W → Outcome S R W
