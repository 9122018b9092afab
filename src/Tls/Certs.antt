-- ===== src/Tls/Certs.antt =====
-- pkg/tls/verifier: what the two verifiers share. Certificates and their parsing belong to the
-- standard library's crypto/x509, of which the fields that are read stand here.
pub mod Checked
use mproxy.Prelude.{
  ℕ, suc, String, Bool, true, false, not, ◌&&◌, ◌||◌, Option, none, some, List, [], ◌∷◌, str_eq,
  if◌then◌else◌, ◌==◌, length,
}
use mproxy.Prelude.Int.{ℤ, pos, pos_part, neg_part, i64}
use mproxy.Errors.{Err, sentinel, joined}
use mproxy.Errors.Results.{Result, ok, fail, panic, join, ◌>>=◌, ◌>>◌}
use mproxy.Handler.{Bytes}

-- `pkix.Name`; `text` is what its `String()` gives.
pub record Name : Type 0 where
  pub common_name : String
  pub serial_number : String
  pub text : String

pub record Certificate : Type 0 where
  pub raw : Bytes
  pub subject : Name
  pub issuer : Name
  pub serial_number : ℤ
  pub is_ca : Bool
  pub authority_key_id : Bytes
  pub subject_key_id : Bytes
  pub crl_distribution_points : List String
  pub issuing_certificate_url : List String
  pub ocsp_server : List String

-- `Cmp` of two `big.Int` is 0.
abbrev pub eq_ℤ : ℤ → ℤ → Bool
eq_ℤ a b = pos_part a == pos_part b && neg_part a == neg_part b

-- An HTTP exchange: the request fails, or reading the body of the response, or neither.
pub data Fetched : Type 0 where
  unreachable unreadable : Err → Fetched
  body : Bytes → Fetched

-- Either error of an exchange, or the body.
unfoldable pub read_all : Err → Err → Fetched → Result Bytes
read_all err_request err_read (unreachable e) = fail (joined err_request e)
read_all err_request err_read (unreadable e) = fail (joined err_read e)
read_all err_request err_read (body raw) = ok raw

-- Each of the two packages has these error variables.
abbrev pub err_parse_cert : String → Err
err_parse_cert owner = sentinel owner "failed to parse Certificate"

abbrev pub err_client_crt : String → Err
err_client_crt owner = sentinel owner "client certificate not received"

-- An issuer is known by its serial number, if both names have one, and by its text otherwise.
unfoldable pub is_issuer : Name → Certificate → Bool
is_issuer issuer_subject cert =
    let has_serials =
      not (str_eq cert.subject.serial_number "") && not (str_eq issuer_subject.serial_number "") in
    (has_serials && str_eq cert.subject.serial_number issuer_subject.serial_number)
    || (not has_serials && str_eq cert.subject.text issuer_subject.text)

unfoldable pub retrieve_issuer_cert : Name → List Certificate → Option Certificate
retrieve_issuer_cert issuer_subject [] = none
retrieve_issuer_cert issuer_subject (cert ∷ certs) =
    if is_issuer issuer_subject cert then some cert else retrieve_issuer_cert issuer_subject certs

unfoldable pub parse_certificates :
    String → (Bytes → Result Certificate) → List Bytes → Result (List Certificate)
parse_certificates owner parse [] = ok []
parse_certificates owner parse (raw ∷ raws) = do
  cert ← join (err_parse_cert owner) (parse raw)
  certs ← parse_certificates owner parse raws
  ok (cert ∷ certs)

-- The loops of both verifiers, over what they do with a certificate and its issuer.
module _ (check : Certificate → Option Certificate → Result (Unit {0})) where
  -- The certificates as they were sent, from index `i` on. A depth of 0 is never met.
  unfoldable pub check_sent : ℕ → ℕ → List Certificate → List Certificate → Result (Unit {0})
  check_sent depth i peers [] = ok tt
  check_sent depth i peers (cert ∷ certs) =
      let later = check_sent depth (suc i) peers certs in
      check cert (retrieve_issuer_cert cert.issuer peers)
      >> (if eq_ℤ (pos (suc i)) (i64 (pos depth)) then ok tt else later)

  -- A chain that crypto/tls has verified: each certificate's issuer follows it, and the last one is
  -- its own.
  unfoldable pub check_chain : List Certificate → Result (Unit {0})
  check_chain [] = ok tt
  check_chain (cert ∷ []) = check cert (some cert) >> ok tt
  check_chain (cert ∷ issuer ∷ certs) =
      let later = check_chain (issuer ∷ certs) in check cert (some issuer) >> later

  unfoldable pub check_chains : List (List Certificate) → Result (Unit {0})
  check_chains [] = ok tt
  check_chains (chain ∷ chains) = let later = check_chains chains in check_chain chain >> later

-- The `switch` of `VerifyPeerCertificate`, over what is done in its two cases.
unfoldable pub verify_peer :
    String
    → (Bytes → Result Certificate)
    → (List Certificate → Result (Unit {0}))
    → (List (List Certificate) → Result (Unit {0}))
    → List Bytes
    → List (List Certificate)
    → Result (Unit {0})
verify_peer owner parse verify_raw verify_chains raws (chain ∷ chains) =
    verify_chains (chain ∷ chains)
verify_peer owner parse verify_raw verify_chains (raw ∷ raws) [] =
    parse_certificates owner parse (raw ∷ raws) >>= verify_raw
verify_peer owner parse verify_raw verify_chains [] [] = fail (err_client_crt owner)
