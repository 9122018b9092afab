-- ===== src/Tls/Ocsp.antt =====
-- pkg/tls/verifier/ocsp/ocsp.go: certificates that their issuer's OCSP responder is asked about.
pub mod Vouching
use mproxy.Prelude.{
  ℕ, String, Bool, true, false, not, ◌&&◌, ◌||◌, Option, none, some, List, [], ◌∷◌, str_eq,
  if◌then◌else◌, ltb, length,
}
use mproxy.Errors.{Err, sentinel, joined, followed}
use mproxy.Errors.Results.{Result, ok, fail, panic, join, or_fail, ◌>>=◌, ◌>>◌}
use mproxy.Handler.{Bytes, eq_bytes}
use mproxy.Tls.Certs.{Certificate, Fetched, read_all, check_sent, check_chains, verify_peer}

abbrev pub ocsp_error : String → Err
ocsp_error text = sentinel "ocsp" text

abbrev pub err_issuer_cert : Err
err_issuer_cert =
    ocsp_error
      "neither the issuer certificate is present in the chain nor is the issuer certificate URL present in AIA"

abbrev pub err_no_ocsp_url : Err
err_no_ocsp_url =
    ocsp_error
      "neither OCSP Server/Responder URL is not present AIA of certificate nor environmental variable OCSP_RESPONDER_URL have value"

-- The text and the host of the responder's URL; "" if there is none.
pub record Config : Type 0 where
  pub ocsp_depth : ℕ
  pub ocsp_responder_url : String
  pub ocsp_responder_host : String

-- The request to a responder: a POST of `sent`.
pub record Query : Type 0 where
  pub url : String
  pub host : String
  pub sent : Bytes

-- The status of a response of the library's.
pub data Status : Type 0 where
  good revoked server_failed unknown other_status : Status

-- What the verifier asks of the network and of the libraries during one verification. `details`
-- prints a certificate's name and number after some words; `query_error` is the error of
-- `http.NewRequest` for a URL, `get` an HTTP GET, `post` an exchange with a responder.
pub record Outside : Type 0 where
  pub get : String → Fetched
  pub post : Query → Fetched
  pub query_error : String → Option Err
  pub host_of : String → Result String
  pub details : String → Certificate → String
  pub decode_pem : Bytes → Option Bytes
  pub parse_certificate : Bytes → Result Certificate
  pub create_request : Certificate → Certificate → Result Bytes
  pub parse_response_for_cert : Bytes → Certificate → Certificate → Result Status

-- A certificate authority's certificate that says that it is its own issuer.
unfoldable pub is_root_ca : Certificate → Bool
is_root_ca cert =
    cert.is_ca
    && ((ltb 0 (length cert.authority_key_id)
          && ltb 0 (length cert.subject_key_id)
          && eq_bytes cert.authority_key_id cert.subject_key_id)
        || str_eq cert.issuer.text cert.subject.text)

module _ (o : Outside) where
  unfoldable pub retrieve_issuing_certificate : String → Result Certificate
  retrieve_issuing_certificate url = do
    raw ←
        read_all (ocsp_error "failed to retrieve issuer certificate")
          (ocsp_error "failed to read issuer certificate") (o.get url)
    block ← or_fail (o.decode_pem raw) (ocsp_error "failed to decode issuer certificate PEM")
    join (ocsp_error "failed to parse issuer certificate") (o.parse_certificate block)

  unfoldable pub first_issuer : Certificate → List String → Result Certificate
  first_issuer cert [] =
      fail (followed err_issuer_cert (o.details " common name,  and serial number" cert))
  first_issuer cert (url ∷ urls) = retrieve_issuing_certificate url

  -- The issuer of a certificate that is not its own.
  unfoldable pub known_issuer : Certificate → Option Certificate → Result Certificate
  known_issuer cert none = first_issuer cert cert.issuing_certificate_url
  known_issuer cert (some issuer) = ok issuer

  unfoldable pub issuer_of : Certificate → Option Certificate → Result Certificate
  issuer_of cert issuer = if not (is_root_ca cert) then known_issuer cert issuer else ok cert

  unfoldable pub own_responder : Certificate → List String → Result (String × String)
  own_responder cert [] =
      fail (followed err_no_ocsp_url (o.details " common name and serial number" cert))
  own_responder cert (url ∷ urls) = do
    host ← join (ocsp_error "failed to parse OCSP server URL") (o.host_of url)
    ok (url, host)

  unfoldable pub responder_of : Config → Certificate → Result (String × String)
  responder_of c cert =
      if str_eq c.ocsp_responder_url ""
      then own_responder cert cert.ocsp_server
      else ok (c.ocsp_responder_url, c.ocsp_responder_host)

  unfoldable pub new_query : String × String → Bytes → Option Err → Result Query
  new_query place sent (some e) = fail (joined (ocsp_error "failed to create OCSP HTTP Request") e)
  new_query place sent none = ok (record { url = place.0; host = place.1; sent = sent })

  unfoldable pub judge : Certificate → Status → Result (Unit {0})
  judge cert good = ok tt
  judge cert revoked = fail (
      followed (ocsp_error "certificate revoked")
        (o.details " command name and serial number, revoked at" cert))
  judge cert server_failed = fail (ocsp_error "OCSP Server Failed")
  judge cert unknown = fail (ocsp_error "OCSP status unknown")
  judge cert other_status = fail (ocsp_error "OCSP status unknown")

  -- `ocspVerify`.
  unfoldable pub ocsp_verify : Config → Certificate → Option Certificate → Result (Unit {0})
  ocsp_verify c cert maybe_issuer = do
    issuer ← issuer_of cert maybe_issuer
    sent ← join (ocsp_error "failed to create OCSP Request") (o.create_request cert issuer)
    place ← responder_of c cert
    query ← new_query place sent (o.query_error (place.0))
    output ←
        read_all (ocsp_error "OCSP request failed") (ocsp_error "failed to read OCSP response")
          (o.post query)
    status ←
        join (ocsp_error "failed to parse OCSP Response for Certificate")
          (o.parse_response_for_cert output cert issuer)
    judge cert status

  unfoldable pub verify_raw_peer_certificates : Config → List Certificate → Result (Unit {0})
  verify_raw_peer_certificates c peers = check_sent (ocsp_verify c) c.ocsp_depth 0 peers peers

  unfoldable pub verify_verified_peer_certificates :
      Config → List (List Certificate) → Result (Unit {0})
  verify_verified_peer_certificates c chains = check_chains (ocsp_verify c) chains

  unfoldable pub verify_peer_certificate :
      Config → List Bytes → List (List Certificate) → Result (Unit {0})
  verify_peer_certificate c raws chains =
      verify_peer "ocsp" o.parse_certificate (verify_raw_peer_certificates c)
        (verify_verified_peer_certificates c) raws chains
