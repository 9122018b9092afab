-- ===== src/Parser/Coap/Forwarding.antt =====
-- pkg/parser/coap/parser.go: which datagrams pass, and in what shape.
use mathlib.Core.Option
use mproxy.Prelude.{Option, none, some, [], ◌∷◌, ◌≡◌, arith, if◌then◌else◌}
use mproxy.Errors.{Err, wrapped}
use mproxy.Handler.{Bytes, Context, Handler}
use mproxy.Parser.{upstream}
use mproxy.Parser.Coap.{
  Code, post, put, get, other_code, Message, Read, datagram, Decoded, message, extract_auth,
  set_auth, path_of, is_observe, handle_upstream, parse,
}

abbrev pub Verdict : Type 0 → Type 0
Verdict S = S × Context × Option Err

module _ {S : Type 0} (h : Handler S) where
  -- The authorising hook of a method, called alone.
  unfoldable pub authorise_code : Code → Message → S → Context → Verdict S
  authorise_code post msg s c =
      let (s1, c1, topic, payload, err) = h.auth_publish s c (path_of msg) [] in
      (s1, c1, Option.map (wrapped "publish authorization failed") err)
  authorise_code put msg s c =
      let (s1, c1, topic, payload, err) = h.auth_publish s c (path_of msg) [] in
      (s1, c1, Option.map (wrapped "publish authorization failed") err)
  authorise_code get msg s c =
      if is_observe msg
      then (let (s1, c1, topics, err) = h.auth_subscribe s c (path_of msg ∷ []) in
          (s1, c1, Option.map (wrapped "subscribe authorization failed") err))
      else (s, c, none)
  authorise_code (other_code n) msg s c = (s, c, none)

  -- The two authorising hooks in turn: that of the connection, with the key of the query as the
  -- password, and that of the method.
  unfoldable pub authorise : Message → S → Context → Verdict S
  unfolding authorise_code
  authorise msg s c =
      let (s1, c1, err) = h.auth_connect s (set_auth (extract_auth msg.queries) c) in
      elim err [
        | some e ↦ (s1, c1, some (wrapped "connection authorization failed" e))
        | none ↦ authorise_code msg.code msg s1 c1
      ]

  refused_code :
      (msg : Message) (s : S) (c : Context) (e : Err)
      → (authorise msg s c).2 ≡ some e
      → ((handle_upstream h msg s c).state ≡ (authorise msg s c).0)
        × ((handle_upstream h msg s c).hctx ≡ (authorise msg s c).1)
        × ((handle_upstream h msg s c).error ≡ some e)
  unfolding authorise handle_upstream
  refused_code msg s c e r = ground (arith, r)

  approved_code :
      (msg : Message) (s : S) (c : Context)
      → (authorise msg s c).2 ≡ none
      → (handle_upstream h msg s c).error ≡ none
  unfolding authorise handle_upstream
  approved_code msg s c r = ground (arith, r)

  module _ {R W : Type 0} (read_all : R → Read × R) (decode : Bytes → Decoded)
      (write : W → Bytes → W × Option Err) where
    -- A message of a client that `AuthConnect` refuses, or `AuthPublish` for a POST or PUT, or
    -- `AuthSubscribe` for a GET that starts an observation, is not written: the error is the
    -- hook's with the parser's text before it, and no further hook has been called.
    pub coap_parse-refused :
        (r r' : R) (raw : Bytes) (msg : Message) (s : S) (c : Context) (w : W) (e : Err)
        → read_all r ≡ (datagram raw, r')
        → decode raw ≡ message msg
        → (authorise msg s c).2 ≡ some e
        → parse h read_all decode write r upstream s c w ≡ record {
          state = (authorise msg s c).0;
          hctx = (authorise msg s c).1;
          inp = r';
          out = w;
          error = some e;
        }
    unfolding parse
    coap_parse-refused r r' raw msg s c w e g d a = ground (arith, refused_code msg s c e a)

    -- A message that is not refused is written just as it came, once: the topic and payload that a
    -- hook changes are not in it. Only the write can fail then.
    pub coap_parse-approved :
        (r r' : R) (raw : Bytes) (msg : Message) (s : S) (c : Context) (w : W)
        → read_all r ≡ (datagram raw, r')
        → decode raw ≡ message msg
        → (authorise msg s c).2 ≡ none
        → let o = parse h read_all decode write r upstream s c w in
          (o.out ≡ (write w raw).0)
          × (o.error ≡ Option.map (wrapped "failed to write CoAP message") (write w raw).1)
    unfolding parse
    coap_parse-approved r r' raw msg s c w g d a = ground (arith, approved_code msg s c a)
