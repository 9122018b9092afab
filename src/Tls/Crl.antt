-- ===== src/Tls/Crl.antt =====
-- pkg/tls/verifier/crl/crl.go: certificates against lists of revoked ones.
pub mod Acceptance
pub mod Signatures
pub mod Revocation
use mproxy.Prelude.{
  ℕ, String, Bool, true, false, not, ◌&&◌, Option, none, some, List, [], ◌∷◌, str_eq, if◌then◌else◌,
  ltb,
}
use mproxy.Prelude.Int.{ℤ}
use mproxy.Errors.{Err, sentinel, joined}
use mproxy.Errors.Results.{Result, ok, fail, panic, join, or_fail, ◌>>=◌, ◌>>◌}
use mproxy.Handler.{Bytes}
use mproxy.Tls.Certs.{Certificate, Fetched, read_all, eq_ℤ, check_sent, check_chains, verify_peer}

abbrev pub crl_error : String → Err
crl_error text = sentinel "crl" text

abbrev pub err_no_crl : Err
err_no_crl =
    crl_error
      "neither offline crl file nor crl distribution points in certificate / environmental variable CRL_DISTRIBUTION_POINTS & CRL_DISTRIBUTION_POINTS_ISSUER_CERT_FILE have values"

abbrev pub err_cert_revoked : Err
err_cert_revoked = crl_error "certificate revoked"

-- The texts of the distribution points' URL; "" if there is none.
pub record Config : Type 0 where
  pub crl_depth : ℕ
  pub offline_crl_file : String
  pub offline_crl_issuer_cert_file : String
  pub crl_distribution_points : String
  pub crl_distribution_points_issuer_cert_file : String

pub record RevocationList : Type 0 where
  pub revoked : List ℤ
  pub next_update : ℕ

-- What the verifier asks of the file system, the network, the clock and the libraries pem and x509
-- during one verification. `decode_pem` gives the bytes of the first block. `check_signature` is
-- `CheckSignatureFrom` of an issuer that is not nil: of nil it panics.
pub record Outside : Type 0 where
  pub read_file : String → Result Bytes
  pub http_get : String → Fetched
  pub now : ℕ
  pub decode_pem : Bytes → Option Bytes
  pub parse_certificate : Bytes → Result Certificate
  pub parse_revocation_list : Bytes → Result RevocationList
  pub check_signature : RevocationList → Certificate → Result (Unit {0})

unfoldable pub is_revoked : List ℤ → ℤ → Bool
is_revoked [] serial = false
is_revoked (r ∷ rs) serial = if eq_ℤ r serial then true else is_revoked rs serial

unfoldable pub crl_verify : Certificate → RevocationList → Result (Unit {0})
crl_verify cert crl =
    if is_revoked crl.revoked cert.serial_number then fail err_cert_revoked else ok tt

unfoldable pub choose : Option RevocationList → Option RevocationList → Result RevocationList
choose (some crl) offline = ok crl
choose none (some crl) = ok crl
choose none none = fail err_no_crl

abbrev pub read_body : Fetched → Result Bytes
read_body got = read_all (crl_error "failed to retrieve CRL") (crl_error "failed to read CRL") got

module _ (o : Outside) where
  unfoldable pub load_cert_file : String → Result Bytes
  load_cert_file file = if str_eq file "" then ok [] else o.read_file file

  unfoldable pub check_issuer : RevocationList → Option Certificate → Result (Unit {0})
  check_issuer crl none = panic
  check_issuer crl (some issuer) =
      join (crl_error "failed to verify CRL signature") (o.check_signature crl issuer)

  unfoldable pub check_expiry : RevocationList → Result RevocationList
  check_expiry crl = if ltb crl.next_update o.now then fail (crl_error "crl expired") else ok crl

  -- `parseVerifyCRL`.
  unfoldable pub parse_verify_crl : Bytes → Option Certificate → Bool → Result RevocationList
  parse_verify_crl raw issuer check_sign = do
    block ← or_fail (o.decode_pem raw) (crl_error "failed to parse CRL")
    crl ← join (crl_error "failed to parse CRL") (o.parse_revocation_list block)
    if check_sign then check_issuer crl issuer else ok tt
    check_expiry crl

  unfoldable pub retrieve_crl : String → Option Certificate → Bool → Result RevocationList
  retrieve_crl url issuer check_sign = do
    raw ← read_body (o.http_get url)
    parse_verify_crl raw issuer check_sign

  -- The certificate of an issuer in a file, which may be empty.
  unfoldable pub decode_issuer : Err → Err → Bytes → Result (Option Certificate)
  decode_issuer err err_pem [] = ok none
  decode_issuer err err_pem (b ∷ bs) = do
    block ← or_fail (o.decode_pem (b ∷ bs)) err_pem
    cert ← join err (o.parse_certificate block)
    ok (some cert)

  unfoldable pub load_issuer : Err → Err → String → Result (Option Certificate)
  load_issuer err err_pem file = do
    raw ← join err (load_cert_file file)
    decode_issuer err err_pem raw

  unfoldable pub load_dist_point_crl_issuer_cert : Config → Result (Option Certificate)
  load_dist_point_crl_issuer_cert c =
      load_issuer (crl_error "failed to load CRL distribution points issuer cert file")
        (crl_error "failed to decode PEM block in CRL distribution points issuer cert file")
        c.crl_distribution_points_issuer_cert_file

  unfoldable pub load_offline_crl_issuer_cert : Config → Result (Option Certificate)
  load_offline_crl_issuer_cert c =
      load_issuer (crl_error "failed to load offline CRL issuer cert file")
        (crl_error "failed to decode PEM block in offline CRL issuer cert file")
        c.offline_crl_issuer_cert_file

  -- The issuer is loaded and not used.
  unfoldable pub parse_offline_crl : Config → Bytes → Result (Option RevocationList)
  parse_offline_crl c [] = ok none
  parse_offline_crl c (b ∷ bs) = do
    issuer ← load_offline_crl_issuer_cert c
    crl ← parse_verify_crl (b ∷ bs) none false
    ok (some crl)

  unfoldable pub load_offline_crl : Config → Result (Option RevocationList)
  load_offline_crl c = do
    raw ← join (crl_error "failed to load offline CRL file") (load_cert_file c.offline_crl_file)
    parse_offline_crl c raw

  unfoldable pub retrieve_configured_crl : Config → Result (Option RevocationList)
  retrieve_configured_crl c = do
    issuer ← load_dist_point_crl_issuer_cert c
    crl ← retrieve_crl c.crl_distribution_points issuer true
    ok (some crl)

  unfoldable pub get_configured_crl : Config → Result (Option RevocationList)
  get_configured_crl c =
      if not (str_eq c.crl_distribution_points "")
        && not (str_eq c.crl_distribution_points_issuer_cert_file "")
      then retrieve_configured_crl c
      else ok none

  unfoldable pub from_distribution_point :
      Config → List String → Option Certificate → Result (Option RevocationList)
  from_distribution_point c [] issuer = get_configured_crl c
  from_distribution_point c (url ∷ urls) issuer = do
    crl ← retrieve_crl url issuer true
    ok (some crl)

  -- `getCRLFromDistributionPoint`.
  unfoldable pub get_crl_from_distribution_point :
      Config → Certificate → Option Certificate → Result (Option RevocationList)
  get_crl_from_distribution_point c cert issuer =
      from_distribution_point c cert.crl_distribution_points issuer

  -- The body of both loops.
  unfoldable pub check_cert :
      Config → Option RevocationList → Certificate → Option Certificate → Result (Unit {0})
  check_cert c offline cert issuer = do
    found ← get_crl_from_distribution_point c cert issuer
    crl ← choose found offline
    crl_verify cert crl

  unfoldable pub verify_raw_peer_certificates : Config → List Certificate → Result (Unit {0})
  verify_raw_peer_certificates c peers = do
    offline ← load_offline_crl c
    check_sent (check_cert c offline) c.crl_depth 0 peers peers

  unfoldable pub verify_verified_peer_certificates :
      Config → List (List Certificate) → Result (Unit {0})
  verify_verified_peer_certificates c chains = do
    offline ← load_offline_crl c
    check_chains (check_cert c offline) chains

  unfoldable pub verify_peer_certificate :
      Config → List Bytes → List (List Certificate) → Result (Unit {0})
  verify_peer_certificate c raws chains =
      verify_peer "crl" o.parse_certificate (verify_raw_peer_certificates c)
        (verify_verified_peer_certificates c) raws chains
