-- ===== src/Tls/Crl/Signatures.antt =====
-- pkg/tls/verifier/crl/crl.go: where a list's signature is not checked, and where it cannot be.
use mproxy.Prelude.{Option, none, List, [], ◌∷◌, ◌≡◌, ◌≤◌, refl, sym, ◌∙◌, All, All-map}
use mproxy.Prelude.Int.{max_int64}
use mproxy.Errors.{Err}
use mproxy.Errors.Results.{Result, ok, join, ◌>>=◌, bind_cong}
use mproxy.Handler.{Bytes}
use mproxy.Tls.Certs.{Certificate}
use mproxy.Tls.Certs.Checked.{Pair, check_all, looked_at}
use mproxy.Tls.Crl.{
  Config, RevocationList, Outside, load_offline_crl, parse_offline_crl,
  load_offline_crl_issuer_cert, load_cert_file, check_cert, verify_peer_certificate,
  get_crl_from_distribution_point, from_distribution_point, get_configured_crl, decode_issuer,
  crl_verify, parse_verify_crl, check_expiry, choose, load_issuer,
}
use mproxy.Tls.Crl.Acceptance.{verify_peer_certificate-looked_at}

-- The same surroundings, but for the signatures of lists.
abbrev pub with_signatures : (RevocationList → Certificate → Result (Unit {0})) → Outside → Outside
with_signatures check o = record o { check_signature = check }

-- Neither the certificate nor the configuration has a distribution point.
abbrev pub IsOffline : Config → Pair → Type 0
IsOffline c p = (p.0.crl_distribution_points ≡ []) × (c.crl_distribution_points ≡ "")

module _ (o : Outside) (c : Config) (check : RevocationList → Certificate → Result (Unit {0})) where
  decode_issuer-unsigned :
      (e e_pem : Err) (raw : Bytes)
      → decode_issuer (with_signatures check o) e e_pem raw ≡ decode_issuer o e e_pem raw
  unfolding decode_issuer
  decode_issuer-unsigned e e_pem [] = refl
  decode_issuer-unsigned e e_pem (b ∷ bs) = refl

  load_offline_crl_issuer_cert-unsigned :
      load_offline_crl_issuer_cert (with_signatures check o) c ≡ load_offline_crl_issuer_cert o c
  unfolding load_offline_crl_issuer_cert load_issuer load_cert_file
  load_offline_crl_issuer_cert-unsigned =
      bind_cong (join _ (load_cert_file o c.offline_crl_issuer_cert_file))
        (decode_issuer-unsigned _ _)

  parse_offline_crl-unsigned :
      (raw : Bytes) → parse_offline_crl (with_signatures check o) c raw ≡ parse_offline_crl o c raw
  unfolding parse_offline_crl parse_verify_crl check_expiry
  parse_offline_crl-unsigned [] = refl
  parse_offline_crl-unsigned (b ∷ bs) = rw load_offline_crl_issuer_cert-unsigned refl

  load_offline_crl-unsigned : load_offline_crl (with_signatures check o) c ≡ load_offline_crl o c
  unfolding load_offline_crl load_cert_file
  load_offline_crl-unsigned =
      bind_cong (join _ (load_cert_file o c.offline_crl_file)) parse_offline_crl-unsigned

  get_crl-unsigned :
      (cert : Certificate) (issuer : Option Certificate)
      → IsOffline c (cert, issuer)
      → get_crl_from_distribution_point o c cert issuer ≡ ok none
  unfolding get_crl_from_distribution_point get_configured_crl from_distribution_point
  get_crl-unsigned cert issuer h = rw (h.0, h.1) refl

  check_cert-unsigned :
      (offline : Option RevocationList) (cert : Certificate) (issuer : Option Certificate)
      → IsOffline c (cert, issuer)
      → check_cert o c offline cert issuer ≡ (choose none offline >>= crl_verify cert)
  unfolding check_cert
  check_cert-unsigned offline cert issuer h = rw (get_crl-unsigned cert issuer h) refl

check_all-same :
    (f g : Certificate → Option Certificate → Result (Unit {0})) (pairs : List Pair)
    → All (λ p. f p.0 p.1 ≡ g p.0 p.1) pairs
    → check_all f pairs ≡ check_all g pairs
check_all-same f g [] same = refl
check_all-same f g (p ∷ ps) same =
    rw (same.0) (bind_cong (g p.0 p.1) (λ u. check_all-same f g ps same.1))

-- For certificates without distribution points, and without a configured one, no signature decides:
-- any check of signatures gives the same result, so the list in the file need not be its issuer's.
pub verify_peer_certificate-unsigned :
    (o : Outside) (c : Config) (check : RevocationList → Certificate → Result (Unit {0}))
    (raws : List Bytes) (chains : List (List Certificate)) (pairs : List Pair)
    → c.crl_depth ≤ max_int64
    → looked_at "crl" o.parse_certificate c.crl_depth raws chains ≡ ok pairs
    → All (IsOffline c) pairs
    → verify_peer_certificate (with_signatures check o) c raws chains
      ≡ verify_peer_certificate o c raws chains
verify_peer_certificate-unsigned o c check raws chains pairs small looked offline =
    let unsigned = with_signatures check o in
    rw
      (
        verify_peer_certificate-looked_at o c raws chains small,
        verify_peer_certificate-looked_at unsigned c raws chains small,
        looked,
        load_offline_crl-unsigned o c check,
      )
      (bind_cong (load_offline_crl o c) λ file.
        check_all-same (check_cert unsigned c file) (check_cert o c file) pairs (
          All-map
            (λ p h.
              check_cert-unsigned unsigned c check file p.0 p.1 h
              ∙ sym (check_cert-unsigned o c check file p.0 p.1 h))
            pairs offline))
