-- ===== src/Examples/Coap.antt =====
-- pkg/parser/coap/parser.go at concrete inputs: a handler that counts its calls, asks for the key
-- "k" and lets nobody publish below "/admin".
use mproxy.Prelude.{
  ◌≡◌, refl, String, List, [], ◌∷◌, none, some, Option, ℕ, suc, str_eq, if◌then◌else◌, zero,
}
use mproxy.Errors.{Err, eof, err_unauthorized, wrapped}
use mproxy.Handler.{eq_bytes, Bytes, Context, Handler, noop_handler, new_context}
use mproxy.Parser.{upstream}
use mproxy.Parser.Coap.{
  Message, post, Read, datagram, Decoded, message, undecoded, parse, extract_auth, set_auth,
  find_auth, path_of,
}
use mproxy.Parser.Coap.Forwarding.{authorise, coap_parse-refused, coap_parse-approved}

abbrev pub keyed : Handler ℕ
keyed = record (noop_handler ℕ) {
  auth_connect =
      λ s c. (suc s, c, if eq_bytes c.password (107 ∷ []) then none else some err_unauthorized);
  auth_publish = λ s c topic payload.
      (suc s, c, topic, payload, if str_eq topic "/admin" then some err_unauthorized else none);
}

abbrev msg : String → Message
msg path = record {
  code = post;
  path = some path;
  observe = none;
  queries = some ((120 ∷ []) ∷ (97 ∷ 117 ∷ 116 ∷ 104 ∷ 61 ∷ 107 ∷ []) ∷ []);
}

-- The decoder knows two datagrams.
abbrev pub decode : Bytes → Decoded
decode [] = undecoded eof
decode (zero ∷ bs) = message (msg "/admin")
decode (suc n ∷ bs) = message (msg "/temperature")

abbrev read_all : Bytes → Read × Bytes
read_all bs = (datagram bs, [])

abbrev keep : List Bytes → Bytes → List Bytes × Option Err
keep w bs = (bs ∷ w, none)

abbrev ctx : Context
ctx = new_context "s1" "10.0.0.1:5000" "udp"

coap_parse-refused_example :
    parse keyed read_all decode keep (0 ∷ 9 ∷ []) upstream 0 ctx [] ≡ record {
      state = 2;
      hctx = record ctx { protocol = "coap"; password = 107 ∷ [] };
      inp = [];
      out = [];
      error = some (wrapped "publish authorization failed" err_unauthorized);
    }
unfolding authorise extract_auth find_auth set_auth eq_bytes path_of
coap_parse-refused_example =
    coap_parse-refused keyed read_all decode keep (0 ∷ 9 ∷ []) [] (0 ∷ 9 ∷ []) (msg "/admin") 0 ctx
      [] (wrapped "publish authorization failed" err_unauthorized) refl refl refl

coap_parse-approved_example :
    let o = parse keyed read_all decode keep (1 ∷ 9 ∷ []) upstream 0 ctx [] in
    (o.out ≡ (1 ∷ 9 ∷ []) ∷ []) × (o.error ≡ none)
unfolding authorise extract_auth find_auth set_auth eq_bytes path_of
coap_parse-approved_example =
    coap_parse-approved keyed read_all decode keep (1 ∷ 9 ∷ []) [] (1 ∷ 9 ∷ []) (msg "/temperature")
      0 ctx [] refl refl refl
