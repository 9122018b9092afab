-- ===== src/Parser/Http/Answers.antt =====
-- pkg/parser/http/parser.go: which answer a request is given, and why.
use mproxy.Prelude.{
  ◌+◌, ◌≤◌, ◌<◌, String, true, false, Option, none, ◌≡◌, arith, length, length-take, ◌≢◌, ◌⊎◌,
}
use mproxy.Handler.{Bytes, Context, Handler}
use mproxy.Parser.Http.{
  Request, Answer, unauthorized, bad_request, too_large, forbidden, proxied, max_body_size,
  is_write, read_body, redirect, with_body, request_context, serve_http,
}

-- The whole body came, and is not too large.
abbrev pub IsRead : {U : Type 0} → Request U → Type 0
IsRead r = (length r.content ≤ max_body_size) × (r.failure ≡ none)

module _ {U : Type 0} (parse_url : String → Option U) {S : Type 0} (h : Handler S)
    (bytes_of : String → Bytes) where
  -- Why a request is answered so, by the hooks called one after the other, and the state and the
  -- context that are left.
  abbrev pub Reason : Request U → S → S × Context × Answer U → Type 0
  Reason r s (s', c', unauthorized) =
      let (s1, c1, err) = h.auth_connect s (request_context bytes_of r) in
      (err ≢ none) × (s' ≡ s1) × (c' ≡ c1)
  Reason r s (s', c', bad_request) =
      let (s1, c1, err) = h.auth_connect s (request_context bytes_of r) in
      (err ≡ none) × (length r.content ≤ max_body_size) × (r.failure ≢ none) × (s' ≡ s1) × (c' ≡ c1)
  Reason r s (s', c', too_large) =
      let (s1, c1, err) = h.auth_connect s (request_context bytes_of r) in
      (err ≡ none) × (max_body_size < length r.content) × (s' ≡ s1) × (c' ≡ c1)
  Reason r s (s', c', forbidden) =
      let (s1, c1, err) = h.auth_connect s (request_context bytes_of r) in
      let (s2, c2, topic, payload, err') = h.auth_publish s1 c1 r.request_uri r.content in
      (err ≡ none) × IsRead r × (is_write r.verb ≡ true) × (err' ≢ none) × (s' ≡ s2) × (c' ≡ c2)
  Reason r s (s', c', proxied q) =
      let (s1, c1, err) = h.auth_connect s (request_context bytes_of r) in
      let (s2, c2, topic, payload, err') = h.auth_publish s1 c1 r.request_uri r.content in
      (err ≡ none)
      × IsRead r
      × (((is_write r.verb ≡ false) × (q ≡ record r { failure = none }))
          ⊎ ((is_write r.verb ≡ true)
              × (err' ≡ none)
              × (q
                  ≡ with_body (redirect parse_url r topic) payload
                      (h.on_publish s2 c2 topic payload).2)))

  -- The answer to a request. 401 is given exactly if `AuthConnect` refuses, and nothing is read
  -- then; 413 if the body is longer than 10 MB, and 400 if reading a body that is no longer than that
  -- fails, both whatever the method; 403 if a POST, PUT or PATCH is refused by `AuthPublish`. Otherwise
  -- the request goes to the backend, and only then: unchanged with its whole body, or, for one of these
  -- three methods, with the URI that `AuthPublish` left if that parses and else its own, and with the
  -- body that `AuthPublish` left as `OnPublish`, which is told of it next, leaves it.
  pub serve_http-Reason : (r : Request U) (s : S) → Reason r s (serve_http parse_url h bytes_of r s)
  unfolding serve_http read_body
  serve_http-Reason r s = ground (arith, length-take (max_body_size + 1) r.content)
