-- ===== src/Parser/Http.antt =====
-- pkg/parser/http/parser.go. `U` is the type of URLs, and `parse_url` is `url.Parse`, of the
-- standard library's net/url. The reverse proxy belongs to net/http/httputil: the model ends with
-- the request that is given to it.
pub mod Answers
use mproxy.Prelude.{
  ℕ, ◌+◌, ◌*◌, String, Bool, true, false, ◌||◌, not, Option, none, some, List, [], ◌∷◌, ltb, leb,
  str_eq, if◌then◌else◌, length, take,
}
use mproxy.Prelude.Int.{ℤ, pos}
use mproxy.Errors.{Err}
use mproxy.Handler.{Bytes, Context, Handler}

-- A body gives its content and then an error, or its end. `basic` is what `BasicAuth` gives,
-- `bytes_of` below the bytes of a text; a missing header or query parameter is "".
pub record Request (U : Type 0) : Type 0 where
  pub verb : String
  pub url : U
  pub request_uri : String
  pub remote_addr : String
  pub request_id : String
  pub basic : Option (String × String)
  pub query_authorization : String
  pub header_authorization : String
  pub content : Bytes
  pub failure : Option Err
  pub content_length : ℤ

pub data Answer (U : Type 0) : Type 0 where
  unauthorized bad_request too_large forbidden : Answer U
  proxied : Request U → Answer U

unfoldable pub status : {U : Type 0} → Answer U → Option ℕ
status unauthorized = some 401
status bad_request = some 400
status too_large = some 413
status forbidden = some 403
status (proxied r) = none

unfoldable pub max_body_size : ℕ
max_body_size = 10 * 1024 * 1024

unfoldable pub extract_auth : {U : Type 0} → Request U → String × String
extract_auth r = elim r.basic [
  | some (user, pass) ↦ (user, pass)
  | none ↦
      if not (str_eq r.query_authorization "")
      then ("", r.query_authorization)
      else if not (str_eq r.header_authorization "")
      then ("", r.header_authorization)
      else ("", "")
]

unfoldable pub is_write : String → Bool
is_write verb = str_eq verb "POST" || str_eq verb "PUT" || str_eq verb "PATCH"

-- `io.ReadAll` of a reader limited to one byte more than the limit: an error behind that is not
-- seen.
unfoldable pub read_body : Bytes → Option Err → Bytes × Option Err
read_body content failure =
    if leb (max_body_size + 1) (length content)
    then (take (max_body_size + 1) content, none)
    else (content, failure)

-- The payload is the new body; `shared` is what its array holds after `OnPublish`.
unfoldable pub with_body : {U : Type 0} → Request U → Bytes → Bytes → Request U
with_body r payload shared = record r {
  content = shared;
  failure = none;
  content_length = pos (length payload);
}

unfoldable pub request_context : {U : Type 0} → (String → Bytes) → Request U → Context
request_context bytes_of r =
    let (username, password) = extract_auth r in
    record {
      session_id = r.request_id;
      username = username;
      password = bytes_of password;
      client_id = "";
      remote_addr = r.remote_addr;
      protocol = "http";
      cert = none;
    }

module _ {U : Type 0} (parse_url : String → Option U) where
  -- The request with the topic as its URI, if the handler has changed it to one that parses.
  unfoldable pub redirect : Request U → String → Request U
  redirect r topic = if str_eq topic r.request_uri then r else elim (parse_url topic) [
    | none ↦ r
    | some url ↦ record r { url = url; request_uri = topic }
  ]

  module _ {S : Type 0} (h : Handler S) (bytes_of : String → Bytes) where
    -- `OnConnect` and the proxy.
    connect_and_proxy : Request U → S → Context → S × Context × Answer U
    connect_and_proxy r s c =
        let (s', c', shared, notified) = h.on_connect s c in (s', c', proxied r)

    publish : Request U → Bytes → S → Context → S × Context × Answer U
    unfolding connect_and_proxy
    publish r payload s c =
        let (s1, c1, topic, payload', err) = h.auth_publish s c r.request_uri payload in
        elim err [
          | some e ↦ (s1, c1, forbidden)
          | none ↦
              let (s2, c2, shared, notified) = h.on_publish s1 c1 topic payload' in
              connect_and_proxy (with_body (redirect r topic) payload' shared) s2 c2
        ]

    serve_body : Request U → Bytes × Option Err → S → Context → S × Context × Answer U
    unfolding publish
    serve_body r (payload, some e) s c = (s, c, bad_request)
    serve_body r (payload, none) s c =
        if ltb max_body_size (length payload)
        then (s, c, too_large)
        else if is_write r.verb
        then publish r payload s c
        else connect_and_proxy (record r { content = payload; failure = none }) s c

    -- `ServeHTTP`.
    unfoldable pub serve_http : Request U → S → S × Context × Answer U
    unfolding serve_body
    serve_http r s =
        let (s1, c1, err) = h.auth_connect s (request_context bytes_of r) in
        elim err [
          | some e ↦ (s1, c1, unauthorized)
          | none ↦ serve_body r (read_body r.content r.failure) s1 c1
        ]
