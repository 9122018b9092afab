-- ===== src/Parser/Coap.antt =====
-- pkg/parser/coap/parser.go. Messages and their decoding belong to the library go-coap: `decode`
-- stands for `UnmarshalWithDecoder`. A text is its bytes where the code cuts it.
pub mod Auth
pub mod Forwarding
use mathlib.Core.Option
use mproxy.Prelude.{
  ℕ, zero, suc, String, Bool, true, false, ◌&&◌, Option, none, some, List, [], ◌∷◌, ltb, ◌==◌,
  if◌then◌else◌, length, take, drop,
}
use mproxy.Errors.{Err, wrapped}
use mproxy.Handler.{eq_bytes, Bytes, Context, Handler}
use mproxy.Parser.{Direction, upstream, downstream, Outcome, Parser}

-- The method codes that the parser tells apart.
pub data Code : Type 0 where
  post put get : Code
  other_code : ℕ → Code

-- What the parser asks of a message; `none` where the library returns an error.
pub record Message : Type 0 where
  pub code : Code
  pub path : Option String
  pub observe : Option ℕ
  pub queries : Option (List Bytes)

pub data Read : Type 0 where
  datagram : Bytes → Read
  failed : Err → Read

pub data Decoded : Type 0 where
  message : Message → Decoded
  undecoded : Err → Decoded

-- "auth="
abbrev pub auth_prefix : Bytes
auth_prefix = 97 ∷ 117 ∷ 116 ∷ 104 ∷ 61 ∷ []

-- The loop of `extractAuthFromQuery`.
unfoldable pub find_auth : List Bytes → Bytes
find_auth [] = []
find_auth (query ∷ rest) =
    let later = find_auth rest in
    if ltb 5 (length query) && eq_bytes (take 5 query) auth_prefix then drop 5 query else later

unfoldable pub extract_auth : Option (List Bytes) → Bytes
extract_auth none = []
extract_auth (some queries) = find_auth queries

-- The key of the query becomes the password, if there is one.
unfoldable pub set_auth : Bytes → Context → Context
set_auth [] c = record c { protocol = "coap" }
set_auth (b ∷ bs) c = record c { protocol = "coap"; password = b ∷ bs }

unfoldable pub path_of : Message → String
path_of msg = elim msg.path [ none ↦ "/" | some path ↦ path ]

unfoldable pub is_observe : Message → Bool
is_observe msg = elim msg.observe [ none ↦ false | some n ↦ n == 0 ]

-- What the hooks leave, and the error of the one that refused.
pub record Handled (S : Type 0) : Type 0 where
  pub state : S
  pub hctx : Context
  pub error : Option Err

module _ {S : Type 0} (h : Handler S) where
  publish_path : String → S → Context → Handled S
  publish_path path s c =
      let (s1, c1, topic, payload, err) = h.auth_publish s c path [] in
      elim err [
        | some e ↦ record {
          state = s1;
          hctx = c1;
          error = some (wrapped "publish authorization failed" e);
        }
        | none ↦
            let (s2, c2, shared, notified) = h.on_publish s1 c1 topic payload in
            record { state = s2; hctx = c2; error = none }
      ]

  subscribe_path : String → S → Context → Handled S
  subscribe_path path s c =
      let (s1, c1, topics, err) = h.auth_subscribe s c (path ∷ []) in
      elim err [
        | some e ↦ record {
          state = s1;
          hctx = c1;
          error = some (wrapped "subscribe authorization failed" e);
        }
        | none ↦
            let (s2, c2, shared, notified) = h.on_subscribe s1 c1 topics in
            record { state = s2; hctx = c2; error = none }
      ]

  -- The `switch` on the method.
  unfoldable pub handle_code : Code → Message → S → Context → Handled S
  unfolding publish_path subscribe_path
  handle_code post msg s c = publish_path (path_of msg) s c
  handle_code put msg s c = publish_path (path_of msg) s c
  handle_code get msg s c =
      if is_observe msg
      then subscribe_path (path_of msg) s c
      else record { state = s; hctx = c; error = none }
  handle_code (other_code n) msg s c = record { state = s; hctx = c; error = none }

  unfoldable pub handle_upstream : Message → S → Context → Handled S
  unfolding handle_code
  handle_upstream msg s c =
      let (s1, c1, err) = h.auth_connect s (set_auth (extract_auth msg.queries) c) in
      elim err [
        | some e ↦ record {
          state = s1;
          hctx = c1;
          error = some (wrapped "connection authorization failed" e);
        }
        | none ↦ handle_code msg.code msg s1 c1
      ]

  module _ {R W : Type 0} (read_all : R → Read × R) (decode : Bytes → Decoded)
      (write : W → Bytes → W × Option Err) where
    unfoldable pub forward : Handled S → Bytes → R → W → Outcome S R W
    forward o raw r w = elim o.error [
      | some e ↦ record { state = o.state; hctx = o.hctx; inp = r; out = w; error = some e }
      | none ↦
          let (w', err) = write w raw in
          record {
            state = o.state;
            hctx = o.hctx;
            inp = r;
            out = w';
            error = Option.map (wrapped "failed to write CoAP message") err;
          }
    ]

    unfoldable pub handle_decoded :
        Decoded → Bytes → R → Direction → S → Context → W → Outcome S R W
    unfolding forward
    handle_decoded (undecoded e) raw r dir s c w = record {
      state = s;
      hctx = c;
      inp = r;
      out = w;
      error = some (wrapped "failed to unmarshal CoAP message" e);
    }
    handle_decoded (message msg) raw r upstream s c w = forward (handle_upstream msg s c) raw r w
    handle_decoded (message msg) raw r downstream s c w =
        forward (record { state = s; hctx = c; error = none }) raw r w

    unfoldable pub handle_read : Read → R → Direction → S → Context → W → Outcome S R W
    unfolding handle_decoded
    handle_read (failed e) r dir s c w = record {
      state = s;
      hctx = c;
      inp = r;
      out = w;
      error = some (wrapped "failed to read CoAP message" e);
    }
    handle_read (datagram raw) r dir s c w = handle_decoded (decode raw) raw r dir s c w

    unfoldable pub parse : Parser S R W
    unfolding handle_read
    parse r dir s c w = let (got, r') = read_all r in handle_read got r' dir s c w
