-- ===== src/Parser/Mqtt.antt =====
-- pkg/parser/mqtt/parser.go. The packets, their reading and their writing belong to the library
-- paho.mqtt.golang: `F` is the type of the fields that the proxy does not look at, `read` takes a
-- packet off a reader of type `R`, and `write` sends one to a writer of type `W`.
pub mod Forwarding
pub mod Topics
use mproxy.Prelude.{
  ℕ, zero, suc, ◌+◌, ◌-◌, String, Bool, true, false, Option, none, some, List, [], ◌∷◌, ◌++◌, ltb,
  ◌==◌, if◌then◌else◌, length, take, replicate,
}
use mathlib.Core.Option
use mproxy.Errors.{Err, wrapped}
use mproxy.Handler.{Bytes, Context, Handler}
use mproxy.Parser.{Direction, upstream, downstream, Outcome, Parser}

pub record Connect (F : Type 0) : Type 0 where
  pub client_identifier : String
  pub username : String
  pub password : Bytes
  pub others : F

pub record Publish (F : Type 0) : Type 0 where
  pub topic_name : String
  pub payload : Bytes
  pub others : F

pub record Subscribe (F : Type 0) : Type 0 where
  pub topics : List String
  pub qoss : List ℕ
  pub others : F

pub record Unsubscribe (F : Type 0) : Type 0 where
  pub topics : List String
  pub others : F

pub data Packet (F : Type 0) : Type 0 where
  connect : Connect F → Packet F
  publish : Publish F → Packet F
  subscribe : Subscribe F → Packet F
  unsubscribe : Unsubscribe F → Packet F
  disconnect : F → Packet F
  other : F → Packet F

-- The result of `packets.ReadPacket`.
pub data Read (F : Type 0) : Type 0 where
  packet : Packet F → Read F
  failed : Err → Read F

-- What a handling function leaves: the packet, which it may have changed in place, and the rest.
pub record Handled (S F : Type 0) : Type 0 where
  pub pkt : Packet F
  pub state : S
  pub hctx : Context
  pub error : Option Err

-- The QoS of the topics: padded with 0, or cut, to the number of topics if that has changed.
unfoldable pub fit_qoss : List ℕ → ℕ → List ℕ
fit_qoss qoss n =
    if ltb (length qoss) n
    then qoss ++ replicate (n - length qoss) 0
    else if ltb n (length qoss)
    then take n qoss
    else qoss

unfoldable pub update_topics : {F : Type 0} → Subscribe F → List String → Subscribe F
unfolding fit_qoss
update_topics p topics =
    if length topics == length p.topics
    then record p { topics = topics }
    else record p { topics = topics; qoss = fit_qoss p.qoss (length topics) }

module _ {S F : Type 0} (h : Handler S) where
  handle_connect : Connect F → S → Context → Handled S F
  handle_connect p s c =
      let c0 = record c {
        client_id = p.client_identifier;
        username = p.username;
        password = p.password;
        protocol = "mqtt";
      } in
      let (s1, c1, err) = h.auth_connect s c0 in
      elim err [
        | some e ↦ record {
          pkt = connect p;
          state = s1;
          hctx = c1;
          error = some (wrapped "connection authorization failed" e);
        }
        | none ↦
            let (s2, c2, password, notified) = h.on_connect s1 c1 in
            record {
              pkt = connect (record p {
                client_identifier = c1.client_id;
                username = c1.username;
                password = password;
              });
              state = s2;
              hctx = c2;
              error = none;
            }
      ]

  handle_publish : Publish F → S → Context → Handled S F
  handle_publish p s c =
      let (s1, c1, topic, payload, err) = h.auth_publish s c p.topic_name p.payload in
      elim err [
        | some e ↦ record {
          pkt = publish p;
          state = s1;
          hctx = c1;
          error = some (wrapped "publish authorization failed" e);
        }
        | none ↦
            let (s2, c2, shared, notified) = h.on_publish s1 c1 topic payload in
            record {
              pkt = publish (record p { topic_name = topic; payload = shared });
              state = s2;
              hctx = c2;
              error = none;
            }
      ]

  handle_subscribe : Subscribe F → S → Context → Handled S F
  handle_subscribe p s c =
      let (s1, c1, topics, err) = h.auth_subscribe s c p.topics in
      elim err [
        | some e ↦ record {
          pkt = subscribe p;
          state = s1;
          hctx = c1;
          error = some (wrapped "subscribe authorization failed" e);
        }
        | none ↦
            let (s2, c2, shared, notified) = h.on_subscribe s1 c1 topics in
            record {
              pkt = subscribe (record (update_topics p topics) { topics = shared });
              state = s2;
              hctx = c2;
              error = none;
            }
      ]

  handle_unsubscribe : Unsubscribe F → S → Context → Handled S F
  handle_unsubscribe p s c =
      let (s1, c1, notified) = h.on_unsubscribe s c p.topics in
      record { pkt = unsubscribe p; state = s1; hctx = c1; error = none }

  handle_disconnect : F → S → Context → Handled S F
  handle_disconnect p s c =
      let (s1, c1, notified) = h.on_disconnect s c in
      record { pkt = disconnect p; state = s1; hctx = c1; error = none }

  unfoldable pub handle_upstream : Packet F → S → Context → Handled S F
  unfolding handle_connect handle_publish handle_subscribe handle_unsubscribe handle_disconnect
  handle_upstream (connect p) s c = handle_connect p s c
  handle_upstream (publish p) s c = handle_publish p s c
  handle_upstream (subscribe p) s c = handle_subscribe p s c
  handle_upstream (unsubscribe p) s c = handle_unsubscribe p s c
  handle_upstream (disconnect p) s c = handle_disconnect p s c
  handle_upstream (other p) s c = record { pkt = other p; state = s; hctx = c; error = none }

  -- The first topic that the handler leaves, if it leaves one.
  retopic : Publish F → List String → Publish F
  retopic p [] = p
  retopic p (t ∷ ts) = record p { topic_name = t }

  deliver : Publish F → S → Context → Handled S F
  unfolding retopic
  deliver p s c =
      let (s1, c1, topics, err) = h.auth_subscribe s c (p.topic_name ∷ []) in
      elim err [
        | some e ↦ record { pkt = publish p; state = s1; hctx = c1; error = some e }
        | none ↦ record { pkt = publish (retopic p topics); state = s1; hctx = c1; error = none }
      ]

  unfoldable pub handle_downstream : Packet F → S → Context → Handled S F
  unfolding deliver
  handle_downstream (publish p) s c = deliver p s c
  handle_downstream pkt s c = record { pkt = pkt; state = s; hctx = c; error = none }

  -- `read` is `packets.ReadPacket`.
  module _ {R W : Type 0} (read : R → Read F × R) (write : W → Packet F → W × Option Err) where
    unfoldable pub finish : Handled S F → R → W → Outcome S R W
    finish h r w = elim h.error [
      | some e ↦ record { state = h.state; hctx = h.hctx; inp = r; out = w; error = some e }
      | none ↦
          let (w', err) = write w h.pkt in
          record {
            state = h.state;
            hctx = h.hctx;
            inp = r;
            out = w';
            error = Option.map (wrapped "failed to write packet") err;
          }
    ]

    unfoldable pub handle : Read F → R → Direction → S → Context → W → Outcome S R W
    unfolding finish
    handle (failed e) r dir s c w = record { state = s; hctx = c; inp = r; out = w; error = some e }
    handle (packet pkt) r upstream s c w = finish (handle_upstream pkt s c) r w
    handle (packet pkt) r downstream s c w = finish (handle_downstream pkt s c) r w

    unfoldable pub parse : Parser S R W
    unfolding handle
    parse r dir s c w = let (got, r') = read r in handle got r' dir s c w
