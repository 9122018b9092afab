-- ===== src/Examples/Http.antt =====
-- pkg/parser/http/parser.go at a concrete input: a POST whose topic and body the handler changes.
use mproxy.Prelude.{◌≡◌, refl, String, [], ◌∷◌, none, some, Option, ℕ, suc, str_eq, if◌then◌else◌}
use mproxy.Prelude.Int.{pos}
use mproxy.Handler.{Bytes, Handler, noop_handler}
use mproxy.Parser.Http.{
  Request, max_body_size, proxied, serve_http, is_write, redirect, with_body, read_body,
}
use mproxy.Parser.Http.Answers.{Reason, serve_http-Reason}

abbrev moving : Handler ℕ
moving = record (noop_handler ℕ) {
  auth_publish = λ s c topic payload. (suc s, c, "/v2", 7 ∷ payload, none);
}

abbrev parse_url : String → Option String
parse_url s = if str_eq s "" then none else some s

abbrev bytes_of : String → Bytes
bytes_of s = if str_eq s "" then [] else 1 ∷ []

abbrev request : Request String
request = record {
  verb = "POST";
  url = "/v1";
  request_uri = "/v1";
  remote_addr = "10.0.0.1:6000";
  request_id = "r1";
  basic = none;
  query_authorization = "";
  header_authorization = "Bearer t";
  content = 1 ∷ 2 ∷ [];
  failure = none;
  content_length = pos 2;
}

moved :
    (serve_http parse_url moving bytes_of request 0).2
    ≡ proxied (record request {
      url = "/v2";
      request_uri = "/v2";
      content = 7 ∷ 1 ∷ 2 ∷ [];
      content_length = pos 3;
    })
unfolding serve_http read_body max_body_size is_write with_body redirect
moved = refl

serve_http-Reason_example :
    Reason parse_url moving bytes_of request 0 (serve_http parse_url moving bytes_of request 0)
serve_http-Reason_example = serve_http-Reason parse_url moving bytes_of request 0
