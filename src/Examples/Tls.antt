-- ===== src/Examples/Tls.antt =====
-- pkg/tls at concrete inputs.
use mproxy.Prelude.{◌≡◌, ◌↔◌, refl, String, List, [], ◌∷◌, some, none, All}
use mproxy.Errors.{other}
use mproxy.Errors.Results.{ok, fail}
use mproxy.Handler.{Bytes, eq_bytes}
use mproxy.Tls.Certs.{Certificate}
use mproxy.Tls.Verifications.{
  Verification, by_ocsp, by_crl, is_space, to_upper, trim_left, trim_right, split, parse_name,
  parse_validation, parse_all, env_parse_slice_validate, err_invalid_cert_verification,
}
use mproxy.Tls.Verifications.Texts.{Entry, IsEntry, env_parse-written}
use mproxy.Tls.Setup.{
  Validator, new_validator, Config, Environment, parse_methods, new_verifier, make_verifiers,
  new_verifiers, new_config, no_client_cert, require_and_verify_client_cert, tls, ServerConfig,
  Files, load_cert_file, add_root, add_client, load_files, load_tls_config, security_status,
}
use mproxy.Tls.Setup.Verified.{Accepts, IsLoaded, new_config-load_tls_config}

-- " ocsp" and "Crl ".
abbrev ocsp_entry : Entry
ocsp_entry = record {
  before = 32 ∷ [];
  word = 111 ∷ 99 ∷ 115 ∷ 112 ∷ [];
  after = [];
  means = by_ocsp;
}

abbrev crl_entry : Entry
crl_entry = record { before = []; word = 67 ∷ 114 ∷ 108 ∷ []; after = 32 ∷ []; means = by_crl }

entries-IsEntry : All IsEntry (ocsp_entry ∷ crl_entry ∷ [])
unfolding is_space to_upper
entries-IsEntry = (((refl, tt), refl, tt), ((tt, refl, (refl, tt)), tt))

env_parse-written_example :
    env_parse_slice_validate (32 ∷ 111 ∷ 99 ∷ 115 ∷ 112 ∷ 44 ∷ 67 ∷ 114 ∷ 108 ∷ 32 ∷ [])
    ≡ ok (by_ocsp ∷ by_crl ∷ [])
env_parse-written_example = env_parse-written ocsp_entry (crl_entry ∷ []) entries-IsEntry

-- An empty name between commas is refused.
empty_name : env_parse_slice_validate (67 ∷ 82 ∷ 76 ∷ 44 ∷ []) ≡ fail err_invalid_cert_verification
unfolding env_parse_slice_validate trim_left trim_right split parse_all parse_validation parse_name
    to_upper is_space eq_bytes
empty_name = refl

abbrev files : Config
files = record {
  cert_file = "server.crt";
  key_file = "server.key";
  server_ca_file = "";
  client_ca_file = "clients.crt";
  validator = none;
}

-- The CRL verifier refuses everything.
abbrev pub env : Environment
env = record {
  files = ok files;
  methods = 99 ∷ 114 ∷ 108 ∷ [];
  new_ocsp = ok (λ raws chains. ok tt);
  new_crl = ok (λ raws chains. fail (other "revoked"));
}

abbrev config : Config
config = record files {
  validator = some (new_validator ((λ raws chains. fail (other "revoked")) ∷ []));
}

made : new_config env ≡ ok config
unfolding new_config new_verifiers make_verifiers new_verifier env_parse_slice_validate trim_left
    trim_right split parse_all parse_validation parse_name to_upper is_space eq_bytes
made = refl

-- A pool is what was added to it.
abbrev pub disk : Files String Bytes
disk = record {
  read_file = λ f. ok (1 ∷ 2 ∷ []);
  load_key_pair = λ cert key. ok cert;
  new_pool = [];
  append_certs = λ pool raw. some raw;
}

abbrev empty_config : ServerConfig String Bytes
empty_config = record {
  kind = tls;
  certificates = [];
  root_cas = none;
  client_cas = none;
  client_auth = no_client_cert;
  verify_peer_certificate = none;
}

abbrev full_config : ServerConfig String Bytes
full_config = record {
  kind = tls;
  certificates = "server.crt" ∷ [];
  root_cas = none;
  client_cas = some (1 ∷ 2 ∷ []);
  client_auth = require_and_verify_client_cert;
  verify_peer_certificate = config.validator;
}

loaded : load_tls_config disk config empty_config ≡ ok (some full_config)
unfolding load_tls_config load_files load_cert_file add_root add_client
loaded = refl

new_config-load_tls_config_example :
    (v : Validator) × IsLoaded disk config v empty_config full_config
    × ((raws : List Bytes) (chains : List (List Certificate))
        → v raws chains ≡ ok tt ↔ (
            (ms : List Verification) × (parse_methods env env.methods ≡ ok ms)
            × All (Accepts env raws chains) ms))
new_config-load_tls_config_example =
    new_config-load_tls_config env disk config empty_config full_config made loaded

status : security_status (some full_config) ≡ "TLS and RequireAndVerifyClientCert"
unfolding security_status
status = refl
