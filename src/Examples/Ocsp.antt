-- ===== src/Examples/Ocsp.antt =====
-- pkg/tls/verifier/ocsp/ocsp.go at concrete inputs: a responder that knows the numbers below 7.
use mproxy.Prelude.{
  ◌≡◌, ◌↔◌, refl, List, [], ◌∷◌, some, none, str_eq, if◌then◌else◌, arith, All, ltb,
}
use mproxy.Errors.{other, followed}
use mproxy.Errors.Results.{Result, ok, fail}
use mproxy.Handler.{Bytes, eq_bytes}
use mproxy.Tls.Certs.{
  unreachable, body, check_chain, check_chains, check_sent, verify_peer, parse_certificates,
  retrieve_issuer_cert, is_issuer, read_all,
}
use mproxy.Tls.Certs.Checked.{Pair, looked_at}
use mproxy.Tls.Ocsp.{
  Config, Status, good, revoked, Outside, is_root_ca, first_issuer, known_issuer, issuer_of,
  responder_of, new_query, judge, ocsp_verify, verify_raw_peer_certificates,
  verify_verified_peer_certificates, verify_peer_certificate, err_issuer_cert,
}
use mproxy.Tls.Ocsp.Vouching.{IsVouched, ocsp_verify_peer-accepts}
use mproxy.Examples.Crl.{root, client, parse_cert}

abbrev config : Config
config = record { ocsp_depth = 0; ocsp_responder_url = "http://ocsp"; ocsp_responder_host = "ocsp" }

-- A query is the number of the certificate, and so is the responder's answer.
abbrev status : Bytes → Result Status
status [] = fail (other "empty")
status (n ∷ ns) = ok (if ltb n 7 then good else revoked)

abbrev world : Outside
world = record {
  get = λ url. unreachable (other "down");
  post = λ q. if str_eq q.host "ocsp" then body q.sent else unreachable (other "down");
  query_error = λ url. none;
  host_of = λ url. ok url;
  details = λ words cert. words;
  decode_pem = λ raw. some raw;
  parse_certificate = parse_cert;
  create_request = λ cert issuer. ok cert.raw;
  parse_response_for_cert = λ output cert issuer. status output;
}

ocsp_verify_peer-accepts_example :
    verify_peer_certificate world config [] ((client ∷ root ∷ []) ∷ []) ≡ ok tt
    ↔ (pairs : List Pair) × (looked_at "ocsp" parse_cert 0 [] ((client ∷ root ∷ []) ∷ [])
        ≡ ok pairs)
      × All (IsVouched world config) pairs
ocsp_verify_peer-accepts_example =
    ocsp_verify_peer-accepts world config [] ((client ∷ root ∷ []) ∷ []) (omega arith)

accepted : verify_peer_certificate world config [] ((client ∷ root ∷ []) ∷ []) ≡ ok tt
unfolding verify_peer_certificate verify_peer verify_verified_peer_certificates check_chains
    check_chain ocsp_verify issuer_of is_root_ca eq_bytes known_issuer responder_of new_query
    read_all judge
accepted = refl

-- A certificate that was sent without its issuer, and that does not say where that is.
without_issuer :
    verify_peer_certificate world config ((6 ∷ []) ∷ []) []
    ≡ fail (followed err_issuer_cert " common name,  and serial number")
unfolding verify_peer_certificate verify_peer verify_raw_peer_certificates parse_certificates
    check_sent retrieve_issuer_cert is_issuer ocsp_verify issuer_of is_root_ca eq_bytes known_issuer
    first_issuer
without_issuer = refl
