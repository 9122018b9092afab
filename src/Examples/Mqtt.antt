-- ===== src/Examples/Mqtt.antt =====
-- pkg/parser/mqtt/parser.go at concrete inputs: a handler that counts its calls, refuses the topic
-- "secret" and moves all other topics below "site/1/".
use Prim.Native.String.{◌++◌ as str_append}
use mproxy.Prelude.{
  ◌≡◌, refl, String, List, [], ◌∷◌, none, some, Option, ℕ, suc, str_eq, if◌then◌else◌,
}
use mproxy.Errors.{eof, Err, err_unauthorized, wrapped}
use mproxy.Handler.{Context, Handler, noop_handler, new_context}
use mproxy.Parser.{upstream, downstream}
use mproxy.Parser.Mqtt.{Read, failed, packet, Publish, Subscribe, Packet, publish, parse}
use mproxy.Parser.Mqtt.Forwarding.{
  IsQuiet, authorise, approved, parse-refused, parse-approved, parse-delivered,
}

abbrev site : String → String
site topic = str_append "site/1/" topic

abbrev pub guarded : Handler ℕ
guarded = record (noop_handler ℕ) {
  auth_publish = λ s c topic payload.
      if str_eq topic "secret"
      then (suc s, c, topic, payload, some err_unauthorized)
      else (suc s, c, site topic, payload, none);
  auth_subscribe = λ s c topics. (suc s, c, "extra" ∷ topics, none);
}

-- The writer keeps what is written.
abbrev keep : List (Packet ℕ) → Packet ℕ → List (Packet ℕ) × Option Err
keep w p = (p ∷ w, none)

-- The reader holds packets that are read already.
abbrev pub take_packet : List (Packet ℕ) → Read ℕ × List (Packet ℕ)
take_packet [] = (failed eof, [])
take_packet (p ∷ ps) = (packet p, ps)

abbrev ctx : Context
ctx = new_context "s1" "10.0.0.1:40000" "tcp"

abbrev pub note : String → Publish ℕ
note topic = record { topic_name = topic; payload = 1 ∷ 2 ∷ []; others = 9 }

pub guarded-IsQuiet : IsQuiet guarded
guarded-IsQuiet = record {
  connect_quiet = λ s c. refl;
  publish_quiet = λ s c topic payload. refl;
  subscribe_quiet = λ s c topics. refl;
}

parse-refused_example :
    parse guarded take_packet keep (publish (note "secret") ∷ []) upstream 0 ctx [] ≡ record {
      state = 1;
      hctx = ctx;
      inp = [];
      out = [];
      error = some (wrapped "publish authorization failed" err_unauthorized);
    }
unfolding authorise
parse-refused_example =
    parse-refused guarded take_packet keep (publish (note "secret") ∷ []) []
      (publish (note "secret")) 0 ctx [] (wrapped "publish authorization failed" err_unauthorized)
      refl refl

parse-approved_example :
    let r = parse guarded take_packet keep (publish (note "temperature") ∷ []) upstream 0 ctx [] in
    (r.out ≡ publish (note "site/1/temperature") ∷ []) × (r.error ≡ none)
unfolding authorise approved
parse-approved_example =
    parse-approved guarded take_packet keep (publish (note "temperature") ∷ []) []
      (publish (note "temperature")) 0 ctx [] refl guarded-IsQuiet refl

parse-delivered_example :
    (parse guarded take_packet keep (publish (note "t") ∷ []) downstream 0 ctx []).out
    ≡ publish (note "extra") ∷ []
parse-delivered_example =
    (parse-delivered guarded take_packet keep (publish (note "t") ∷ []) [] (note "t") 0 ctx []
        refl).4
      "extra" ("t" ∷ []) refl refl

abbrev request : Subscribe ℕ
request = record { topics = "a" ∷ "b" ∷ []; qoss = 1 ∷ 2 ∷ []; others = 9 }
