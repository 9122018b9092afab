-- ===== src/Parser/Mqtt/Forwarding.antt =====
-- pkg/parser/mqtt/parser.go: which packets go on, with what in them, and what a refusal leaves.
use mathlib.Core.Option
use mproxy.Prelude.{String, ◌≡◌, refl, Option, none, some, List, [], ◌∷◌, arith}
use mproxy.Errors.{Err, wrapped}
use mproxy.Handler.{Bytes, Context, Handler}
use mproxy.Parser.{upstream, downstream}
use mproxy.Parser.Mqtt.{
  Read, Connect, Publish, Subscribe, Packet, connect, publish, subscribe, unsubscribe, disconnect,
  other, packet, update_topics, handle_upstream, handle_downstream, parse,
}

-- A handler whose notifications do not write into the slices that they are given.
pub record IsQuiet {S : Type 0} (h : Handler S) : Type 0 where
  pub connect_quiet : (s : S) (c : Context) → (h.on_connect s c).2 ≡ c.password
  pub publish_quiet :
      (s : S) (c : Context) (topic : String) (payload : Bytes)
      → (h.on_publish s c topic payload).2 ≡ payload
  pub subscribe_quiet :
      (s : S) (c : Context) (topics : List String) → (h.on_subscribe s c topics).2 ≡ topics

-- The context that `AuthConnect` is given for a CONNECT packet.
abbrev pub credentials : {F : Type 0} → Connect F → Context → Context
credentials p c = record c {
  client_id = p.client_identifier;
  username = p.username;
  password = p.password;
  protocol = "mqtt";
}

-- What a packet's authorisation answers: the error, with the text that the parser puts before it.
abbrev pub Verdict : Type 0 → Type 0
Verdict S = S × Context × Option Err

topics-update_topics :
    {F : Type 0} (p : Subscribe F) (topics : List String) → (update_topics p topics).topics ≡ topics
unfolding update_topics
topics-update_topics p topics = ground arith

module _ {S F : Type 0} (h : Handler S) where
  unfoldable pub authorise : Packet F → S → Context → Verdict S
  authorise (connect p) s c =
      let (s1, c1, err) = h.auth_connect s (credentials p c) in
      (s1, c1, Option.map (wrapped "connection authorization failed") err)
  authorise (publish p) s c =
      let (s1, c1, topic, payload, err) = h.auth_publish s c p.topic_name p.payload in
      (s1, c1, Option.map (wrapped "publish authorization failed") err)
  authorise (subscribe p) s c =
      let (s1, c1, topics, err) = h.auth_subscribe s c p.topics in
      (s1, c1, Option.map (wrapped "subscribe authorization failed") err)
  authorise _ s c = (s, c, none)

  -- The packet with what the authorising hook has made of it.
  unfoldable pub approved : Packet F → S → Context → Packet F
  approved (connect p) s c =
      let (s1, c1, err) = h.auth_connect s (credentials p c) in
      connect (record p {
        client_identifier = c1.client_id;
        username = c1.username;
        password = c1.password;
      })
  approved (publish p) s c =
      let (s1, c1, topic, payload, err) = h.auth_publish s c p.topic_name p.payload in
      publish (record p { topic_name = topic; payload = payload })
  approved (subscribe p) s c =
      let (s1, c1, topics, err) = h.auth_subscribe s c p.topics in
      subscribe (update_topics p topics)
  approved pkt s c = pkt

  refused_upstream :
      (pkt : Packet F) (s : S) (c : Context) (e : Err)
      → (authorise pkt s c).2 ≡ some e
      → ((handle_upstream h pkt s c).state ≡ (authorise pkt s c).0)
        × ((handle_upstream h pkt s c).hctx ≡ (authorise pkt s c).1)
        × ((handle_upstream h pkt s c).error ≡ some e)
  unfolding authorise handle_upstream
  refused_upstream (connect p) s c e r = ground arith
  refused_upstream (publish p) s c e r = ground arith
  refused_upstream (subscribe p) s c e r = ground arith
  refused_upstream (unsubscribe p) s c e r = cc
  refused_upstream (disconnect p) s c e r = cc
  refused_upstream (other p) s c e r = cc

  approved_upstream :
      (pkt : Packet F) (s : S) (c : Context)
      → IsQuiet h
      → (authorise pkt s c).2 ≡ none
      → ((handle_upstream h pkt s c).error ≡ none)
        × ((handle_upstream h pkt s c).pkt ≡ approved pkt s c)
  unfolding authorise approved handle_upstream
  approved_upstream (connect p) s c q r =
      let t = h.auth_connect s (credentials p c) in ground (arith, q.connect_quiet t.0 t.1)
  approved_upstream (publish p) s c q r =
      let t = h.auth_publish s c p.topic_name p.payload in
      ground (arith, q.publish_quiet t.0 t.1 t.2 t.3)
  approved_upstream (subscribe p) s c q r =
      let t = h.auth_subscribe s c p.topics in
      ground (arith, q.subscribe_quiet t.0 t.1 t.2, topics-update_topics p t.2)
  approved_upstream (unsubscribe p) s c q r = (refl, refl)
  approved_upstream (disconnect p) s c q r = (refl, refl)
  approved_upstream (other p) s c q r = (refl, refl)

  module _ {R W : Type 0} (read : R → Read F × R) (write : W → Packet F → W × Option Err) where
    -- No packet of a client passes its authorisation by. If `AuthConnect`, `AuthPublish` or
    -- `AuthSubscribe` refuses a CONNECT, PUBLISH or SUBSCRIBE, then nothing is written, the error
    -- is the hook's with the parser's text before it, and no further hook has been called: the
    -- handler's state and the context are those that the refusing hook left.
    pub parse-refused :
        (r r' : R) (pkt : Packet F) (s : S) (c : Context) (w : W) (e : Err)
        → read r ≡ (packet pkt, r')
        → (authorise pkt s c).2 ≡ some e
        → parse h read write r upstream s c w ≡ record {
          state = (authorise pkt s c).0;
          hctx = (authorise pkt s c).1;
          inp = r';
          out = w;
          error = some e;
        }
    unfolding parse
    parse-refused r r' pkt s c w e g a = ground (arith, refused_upstream pkt s c e a)

    -- A packet that is not refused is written once, as the authorising hook has changed it and
    -- with its other fields as they were, whatever the notifications return, for a handler whose
    -- notifications do not write into the slices they are given. Only the write can fail then.
    pub parse-approved :
        (r r' : R) (pkt : Packet F) (s : S) (c : Context) (w : W)
        → read r ≡ (packet pkt, r')
        → IsQuiet h
        → (authorise pkt s c).2 ≡ none
        → let o = parse h read write r upstream s c w in
          (o.out ≡ (write w (approved pkt s c)).0)
          × (o.error ≡ Option.map (wrapped "failed to write packet") (write w (approved pkt s c)).1)
    unfolding parse
    parse-approved r r' pkt s c w g q a = ground (arith, approved_upstream pkt s c q a)

    -- A PUBLISH of the broker goes to the client only if `AuthSubscribe` lets its topic pass, and
    -- with the first of the topics that the hook leaves; if the hook leaves none, it goes on with
    -- its own topic. A refusal is returned as it is, with nothing written.
    pub parse-delivered :
        (r r' : R) (p : Publish F) (s : S) (c : Context) (w : W)
        → read r ≡ (packet (publish p), r')
        → let (s1, c1, topics, err) = h.auth_subscribe s c (p.topic_name ∷ []) in
          let o = parse h read write r downstream s c w in
          (o.state ≡ s1)
          × (o.hctx ≡ c1)
          × ((e : Err) → err ≡ some e → (o.out ≡ w) × (o.error ≡ some e))
          × (err ≡ none → topics ≡ [] → o.out ≡ (write w (publish p)).0)
          × ((t : String) (ts : List String)
              → err ≡ none
              → topics ≡ t ∷ ts
              → o.out ≡ (write w (publish (record p { topic_name = t }))).0)
    unfolding parse handle_downstream
    parse-delivered r r' p s c w g = (
      ground arith,
      ground arith,
      λ e k. ground arith,
      λ k n. ground arith,
      λ t ts k n. ground arith,
    )
