-- ===== src/Examples/Crl.antt =====
-- pkg/tls/verifier/crl/crl.go at concrete inputs.
use mproxy.Prelude.{
  ℕ, ◌≡◌, ◌==◌, refl, String, List, [], ◌∷◌, some, none, str_eq, if◌then◌else◌, arith, All,
}
use mproxy.Prelude.Int.{pos}
use mproxy.Errors.{other}
use mproxy.Errors.Results.{Result, ok, fail}
use mproxy.Handler.{Bytes}
use mproxy.Tls.Certs.{
  Name, Certificate, unreachable, body, check_chain, check_chains, check_sent, verify_peer,
  parse_certificates, retrieve_issuer_cert, is_issuer, read_all,
}
use mproxy.Tls.Certs.Checked.{Pair, looked_at}
use mproxy.Tls.Crl.{
  Config, RevocationList, Outside, is_revoked, crl_verify, load_cert_file, check_issuer,
  check_expiry, parse_verify_crl, retrieve_crl, decode_issuer, load_issuer,
  load_offline_crl_issuer_cert, parse_offline_crl, load_offline_crl, get_configured_crl,
  from_distribution_point, get_crl_from_distribution_point, choose, check_cert,
  verify_raw_peer_certificates, verify_verified_peer_certificates, verify_peer_certificate,
  err_cert_revoked,
}
use mproxy.Tls.Crl.Revocation.{IsUnrevoked}
use mproxy.Tls.Crl.Acceptance.{verify_peer_certificate-accepts}
use mproxy.Tls.Crl.Signatures.{with_signatures, verify_peer_certificate-unsigned}

abbrev pub named : String → Name
named text = record { common_name = text; serial_number = ""; text = text }

abbrev pub certificate : ℕ → String → String → List String → Certificate
certificate n subject issuer points = record {
  raw = n ∷ [];
  subject = named subject;
  issuer = named issuer;
  serial_number = pos n;
  is_ca = str_eq subject issuer;
  authority_key_id = [];
  subject_key_id = [];
  crl_distribution_points = points;
  issuing_certificate_url = [];
  ocsp_server = [];
}

-- A root, a client of it with a distribution point, and one without.
abbrev pub root : Certificate
root = certificate 1 "CN=root" "CN=root" []

abbrev pub client : Certificate
client = certificate 5 "CN=client" "CN=root" ("http://root/crl" ∷ [])

abbrev pub bare : Certificate
bare = certificate 6 "CN=bare" "CN=root" []

abbrev config : Config
config = record {
  crl_depth = 0;
  offline_crl_file = "crl.pem";
  offline_crl_issuer_cert_file = "";
  crl_distribution_points = "";
  crl_distribution_points_issuer_cert_file = "";
}

abbrev pub parse_cert : Bytes → Result Certificate
parse_cert [] = fail (other "empty")
parse_cert (n ∷ ns) = ok (if n == 5 then client else (if n == 6 then bare else root))

-- A list's text is what it revokes; the one at the distribution point revokes 7, the one in the file
-- 9.
abbrev parse_list : Bytes → Result RevocationList
parse_list [] = fail (other "empty")
parse_list (n ∷ ns) = ok (record { revoked = pos n ∷ []; next_update = 100 })

abbrev world : Outside
world = record {
  read_file = λ f. ok (9 ∷ []);
  http_get =
      λ url. if str_eq url "http://root/crl" then body (7 ∷ []) else unreachable (other "down");
  now = 50;
  decode_pem = λ raw. some raw;
  parse_certificate = parse_cert;
  parse_revocation_list = parse_list;
  check_signature = λ crl issuer. ok tt;
}

accepted : verify_peer_certificate world config [] ((client ∷ root ∷ []) ∷ []) ≡ ok tt
unfolding verify_peer_certificate verify_peer verify_verified_peer_certificates check_chains
    check_chain check_cert get_crl_from_distribution_point from_distribution_point
    get_configured_crl retrieve_crl read_all parse_verify_crl check_issuer check_expiry choose
    crl_verify is_revoked load_offline_crl load_cert_file parse_offline_crl
    load_offline_crl_issuer_cert load_issuer decode_issuer
accepted = refl

verify_peer_certificate-accepts_example :
    (pairs : List Pair) × (looked_at "crl" parse_cert 0 [] ((client ∷ root ∷ []) ∷ []) ≡ ok pairs)
    × All (IsUnrevoked world config) pairs
verify_peer_certificate-accepts_example =
    verify_peer_certificate-accepts world config [] ((client ∷ root ∷ []) ∷ []) (omega arith)
      accepted

-- A certificate without distribution points that the file revokes.
revoked_in_file :
    verify_peer_certificate
      (record world { read_file = λ f. ok (6 ∷ []) })
      config
      ((6 ∷ []) ∷ [])
      []
    ≡ fail err_cert_revoked
unfolding verify_peer_certificate verify_peer verify_raw_peer_certificates parse_certificates
    check_sent retrieve_issuer_cert is_issuer check_cert get_crl_from_distribution_point
    from_distribution_point get_configured_crl check_expiry choose crl_verify is_revoked
    load_offline_crl load_cert_file parse_offline_crl load_offline_crl_issuer_cert load_issuer
    decode_issuer parse_verify_crl
revoked_in_file = refl

sent_bare : looked_at "crl" parse_cert 0 ((6 ∷ []) ∷ []) [] ≡ ok ((bare, none) ∷ [])
unfolding looked_at parse_certificates retrieve_issuer_cert is_issuer
sent_bare = refl

verify_peer_certificate-unsigned_example :
    verify_peer_certificate
      (with_signatures (λ crl issuer. fail (other "bad signature")) world)
      config
      ((6 ∷ []) ∷ [])
      []
    ≡ verify_peer_certificate world config ((6 ∷ []) ∷ []) []
verify_peer_certificate-unsigned_example =
    verify_peer_certificate-unsigned world config (λ crl issuer. fail (other "bad signature"))
      ((6 ∷ []) ∷ []) [] ((bare, none) ∷ []) (omega arith) sent_bare ((refl, refl), tt)

sent_client : looked_at "crl" parse_cert 0 ((5 ∷ []) ∷ []) [] ≡ ok ((client, none) ∷ [])
unfolding looked_at parse_certificates retrieve_issuer_cert is_issuer
sent_client = refl

file_list :
    load_offline_crl world config ≡ ok (some (record { revoked = pos 9 ∷ []; next_update = 100 }))
unfolding load_offline_crl load_cert_file parse_offline_crl load_offline_crl_issuer_cert load_issuer
    decode_issuer parse_verify_crl check_expiry
file_list = refl
