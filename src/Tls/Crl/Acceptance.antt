-- ===== src/Tls/Crl/Acceptance.antt =====
-- pkg/tls/verifier/crl/crl.go: what stands behind a certificate that is accepted, and what does not.
use mproxy.Prelude.{List, ◌≡◌, ◌≤◌, sym, ◌∙◌, All, All-map}
use mproxy.Prelude.Int.{max_int64}
use mproxy.Errors.Results.{ok, ◌>>=◌, ok_of_bind, bind_cong}
use mproxy.Handler.{Bytes}
use mproxy.Tls.Certs.{Certificate}
use mproxy.Tls.Certs.Checked.{
  Pair, check_all, check_all-All, check_chains-all, check_sent-all, looked_at,
  verify_peer-looked_at,
}
use mproxy.Tls.Crl.{
  Config, Outside, load_offline_crl, check_cert, verify_raw_peer_certificates,
  verify_verified_peer_certificates, verify_peer_certificate,
}
use mproxy.Tls.Crl.Revocation.{IsUnrevoked, check_cert_lem}

-- A run of the verifier, for an `int` depth: the offline list is read, then the certificates of the
-- chains, or those sent up to the depth, are looked up one after the other until one is refused.
pub verify_peer_certificate-looked_at :
    (o : Outside) (c : Config) (raws : List Bytes) (chains : List (List Certificate))
    → c.crl_depth ≤ max_int64
    → verify_peer_certificate o c raws chains ≡ (
        looked_at "crl" o.parse_certificate c.crl_depth raws chains >>= λ pairs.
        load_offline_crl o c >>= λ offline. check_all (check_cert o c offline) pairs)
unfolding verify_peer_certificate verify_raw_peer_certificates verify_verified_peer_certificates
verify_peer_certificate-looked_at o c raws chains small =
    verify_peer-looked_at "crl" o.parse_certificate _ _ _ c.crl_depth
      (λ peers.
        bind_cong (load_offline_crl o c)
          λ offline. check_sent-all (check_cert o c offline) c.crl_depth peers small)
      (λ vs.
        bind_cong (load_offline_crl o c) λ offline. check_chains-all (check_cert o c offline) vs)
      raws chains

-- Every certificate that is looked at in an accepted run has a list that its serial number is not in:
-- that of its own first distribution point or, only if it has none, that of the configured point or
-- the offline file; and a list from a point is signed by its issuer and has not expired, one from the
-- file has not expired. Those looked at are all of the verified chains, whatever the depth, or, if there
-- are no such chains, those sent up to the depth.
pub verify_peer_certificate-accepts :
    (o : Outside) (c : Config) (raws : List Bytes) (chains : List (List Certificate))
    → c.crl_depth ≤ max_int64
    → verify_peer_certificate o c raws chains ≡ ok tt
    → (pairs : List Pair) × (looked_at "crl" o.parse_certificate c.crl_depth raws chains ≡ ok pairs)
      × All (IsUnrevoked o c) pairs
verify_peer_certificate-accepts o c raws chains small h =
    let run = sym (verify_peer_certificate-looked_at o c raws chains small) ∙ h in
    let (pairs, looked, h1) =
      ok_of_bind (looked_at "crl" o.parse_certificate c.crl_depth raws chains) _ tt run in
    let (offline, loaded, h2) = ok_of_bind (load_offline_crl o c) _ tt h1 in
    (
      pairs,
      looked,
      All-map (λ p. check_cert_lem o c offline p.0 p.1 loaded) pairs
          (check_all-All (check_cert o c offline) pairs h2),
    )
