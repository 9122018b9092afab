-- ===== src/Tls/Setup.antt =====
-- pkg/tls/tls.go, config.go, verifications.go and verifier/verifier.go: from the environment to the
-- configuration of a TLS or DTLS server.
pub mod Verified
use mproxy.Prelude.{
  String, Bool, true, false, ◌||◌, Option, none, some, List, [], ◌∷◌, str_eq, if◌then◌else◌,
}
use mproxy.Errors.{Err, sentinel, ◌^^◌}
use mproxy.Errors.Results.{Result, ok, fail, panic, join, or_fail, ◌>>=◌, ◌>>◌}
use mproxy.Handler.{Bytes}
use mproxy.Tls.Certs.{Certificate}
use mproxy.Tls.Verifications.{Text, Verification, by_ocsp, by_crl, env_parse_slice_validate}

-- `VerifyPeerCertificate` of a verifier, and the function that calls several.
abbrev pub Validator : Type 0
Validator = List Bytes → List (List Certificate) → Result (Unit {0})

-- `NewValidator`.
unfoldable pub new_validator : List Validator → Validator
new_validator [] raws chains = ok tt
new_validator (vm ∷ verifiers) raws chains =
    let later = new_validator verifiers raws chains in vm raws chains >> later

abbrev pub tls_error : String → Err
tls_error text = sentinel "tls" text

pub record Config : Type 0 where
  pub cert_file : String
  pub key_file : String
  pub server_ca_file : String
  pub client_ca_file : String
  pub validator : Option Validator

-- What the environment gives to `caarlos0/env`: the names of the files, the list of methods ("" if
-- there is none, which is not parsed), and what `New` of the packages ocsp and crl makes of it.
pub record Environment : Type 0 where
  pub files : Result Config
  pub methods : Text
  pub new_ocsp : Result Validator
  pub new_crl : Result Validator

module _ (env : Environment) where
  abbrev pub parse_methods : Text → Result (List Verification)
  parse_methods [] = ok []
  parse_methods (c ∷ cs) = env_parse_slice_validate (c ∷ cs)

  unfoldable pub new_verifier : Verification → Result Validator
  new_verifier by_ocsp = env.new_ocsp
  new_verifier by_crl = env.new_crl

  unfoldable pub make_verifiers : List Verification → Result (List Validator)
  make_verifiers [] = ok []
  make_verifiers (v ∷ vs) = do vm ← new_verifier v; vms ← make_verifiers vs; ok (vm ∷ vms)

  unfoldable pub new_verifiers : Result (List Validator)
  new_verifiers = parse_methods env.methods >>= make_verifiers

  unfoldable pub new_config : Result Config
  new_config = do
    c ← env.files
    verifiers ← new_verifiers
    ok (record c { validator = some (new_validator verifiers) })

pub data ClientAuth : Type 0 where
  no_client_cert require_and_verify_client_cert : ClientAuth

pub data Kind : Type 0 where
  tls dtls : Kind

-- The fields of `tls.Config` and of `dtls.Config` that are used. The pools of certificates and the key
-- pairs are crypto/tls's and crypto/x509's; `append_certs` is none if no certificate was added.
module _ (KeyPair Pool : Type 0) where
  pub record ServerConfig : Type 0 where
    pub kind : Kind
    pub certificates : List KeyPair
    pub root_cas : Option Pool
    pub client_cas : Option Pool
    pub client_auth : ClientAuth
    pub verify_peer_certificate : Option Validator

  pub record Files : Type 0 where
    pub read_file : String → Result Bytes
    pub load_key_pair : String → String → Result KeyPair
    pub new_pool : Pool
    pub append_certs : Pool → Bytes → Option Pool

unfoldable pub load_cert_file : (String → Result Bytes) → String → Result Bytes
load_cert_file read_file file = if str_eq file "" then ok [] else read_file file

module _ {KeyPair Pool : Type 0} (o : Files KeyPair Pool) where
  abbrev pub or_new : Option Pool → Pool
  or_new none = o.new_pool
  or_new (some pool) = pool

  unfoldable pub add_root : Bytes → ServerConfig KeyPair Pool → Result (ServerConfig KeyPair Pool)
  add_root [] s = ok s
  add_root (b ∷ bs) s = do
    pool ←
        or_fail (o.append_certs (or_new s.root_cas) (b ∷ bs))
          (tls_error "failed to append root ca tls.Config")
    ok (record s { root_cas = some pool })

  abbrev pub install : Option Validator → ServerConfig KeyPair Pool → ServerConfig KeyPair Pool
  install none s = s
  install (some v) s = record s { verify_peer_certificate = some v }

  unfoldable pub add_client :
      Option Validator → Bytes → ServerConfig KeyPair Pool → Result (ServerConfig KeyPair Pool)
  add_client v [] s = ok s
  add_client v (b ∷ bs) s = do
    pool ←
        or_fail (o.append_certs (or_new s.client_cas) (b ∷ bs))
          (tls_error "failed to append root ca tls.Config")
    ok (
        install v
          (record s { client_cas = some pool; client_auth = require_and_verify_client_cert }))

  unfoldable pub load_files :
      Config → ServerConfig KeyPair Pool → Result (Option (ServerConfig KeyPair Pool))
  load_files c s = do
    certificate ←
        join (tls_error "failed to load certificates") (o.load_key_pair c.cert_file c.key_file)
    root_ca ←
        join (tls_error "failed to load Server CA") (load_cert_file o.read_file c.server_ca_file)
    client_ca ←
        join (tls_error "failed to load Client CA") (load_cert_file o.read_file c.client_ca_file)
    with_root ← add_root root_ca (record s { certificates = certificate ∷ [] })
    with_client ← add_client c.validator client_ca with_root
    ok (some with_client)

  unfoldable pub load_tls_config :
      Config → ServerConfig KeyPair Pool → Result (Option (ServerConfig KeyPair Pool))
  load_tls_config c s =
      if str_eq c.cert_file "" || str_eq c.key_file "" then ok none else load_files c s

-- `String()` of the two.
abbrev pub auth_name : ClientAuth → String
auth_name no_client_cert = "NoClientCert"
auth_name require_and_verify_client_cert = "RequireAndVerifyClientCert"

abbrev pub server_part {ℓ} : {KeyPair : Type ℓ} → List KeyPair → String
server_part [] = "no server certificates"
server_part (k ∷ ks) = "TLS"

abbrev pub client_part {ℓ} : {Pool : Type ℓ} → Option Pool → ClientAuth → String
client_part none auth = ""
client_part (some pool) auth = " and " ^^ auth_name auth

module _ {KeyPair Pool : Type 0} where
  abbrev pub status_of : Kind → ServerConfig KeyPair Pool → String
  status_of tls s = server_part s.certificates ^^ client_part s.client_cas s.client_auth
  status_of dtls s = "DTLS"

  unfoldable pub security_status : Option (ServerConfig KeyPair Pool) → String
  security_status none = "no TLS"
  security_status (some s) = status_of s.kind s

-- A connection as `ClientCert` looks at it: not `tls.Conn`, or the result of its handshake, with the
-- version and the certificates of the peer.
pub data Client : Type 0 where
  plain : Client
  no_handshake : Err → Client
  no_version : Client
  connected : List Certificate → Client

abbrev pub first_cert : List Certificate → Option Certificate
first_cert [] = none
first_cert (cert ∷ certs) = some cert

-- `none` is the empty certificate.
unfoldable pub client_cert : Client → Result (Option Certificate)
client_cert plain = ok none
client_cert (no_handshake e) = fail e
client_cert no_version = fail (tls_error "failed to get TLS details of connection")
client_cert (connected peers) = ok (first_cert peers)
