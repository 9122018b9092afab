-- ===== src/Tls/Crl/Revocation.antt =====
-- pkg/tls/verifier/crl/crl.go: what stands behind a certificate that is accepted, and what does not.
use mproxy.Prelude.{
  String, true, false, Option, none, some, List, [], ◌∷◌, ◌≡◌, refl, ap, subst, ◌∙◌, ltb, str_eq,
  inl, inr, arith, if_cases, not, ◌&&◌,
}
use mproxy.Errors.{Err}
use mproxy.Errors.Results.{ok, fail, join, or_fail, ok_of_bind, ok_of_join, ok_of_or_fail}
use mproxy.Handler.{Bytes}
use mproxy.Tls.Certs.{Certificate, body}
use mproxy.Tls.Certs.Checked.{ok_of_read_all, Pair}
use mproxy.Tls.Crl.{
  Config, RevocationList, Outside, is_revoked, crl_verify, load_cert_file, check_issuer,
  check_expiry, parse_verify_crl, read_body, retrieve_crl, load_dist_point_crl_issuer_cert,
  load_offline_crl_issuer_cert, parse_offline_crl, load_offline_crl, retrieve_configured_crl,
  err_cert_revoked, get_configured_crl, from_distribution_point, get_crl_from_distribution_point,
  choose, check_cert,
}

-- `raw` is a list that has not expired.
abbrev pub IsCurrent : Outside → Bytes → RevocationList → Type 0
IsCurrent o raw crl =
    (block : Bytes) × (o.decode_pem raw ≡ some block)
    × (o.parse_revocation_list block ≡ ok crl)
    × (ltb crl.next_update o.now ≡ false)

-- `url` gives a current list that `issuer` has signed.
abbrev pub IsServed : Outside → String → Option Certificate → RevocationList → Type 0
IsServed o url issuer crl =
    (raw : Bytes) × (signer : Certificate) × (o.http_get url ≡ body raw)
    × (issuer ≡ some signer)
    × (o.check_signature crl signer ≡ ok tt)
    × IsCurrent o raw crl

-- The list that a certificate with this issuer is looked up in.
pub data Source (o : Outside) (c : Config) (cert : Certificate) (issuer : Option Certificate)
    (crl : RevocationList) : Type 0 where
  by_certificate :
      (url : String) (urls : List String)
      → cert.crl_distribution_points ≡ url ∷ urls
      → IsServed o url issuer crl
      → Source o c cert issuer crl
  by_config :
      (signer : Option Certificate)
      → cert.crl_distribution_points ≡ []
      → load_dist_point_crl_issuer_cert o c ≡ ok signer
      → IsServed o c.crl_distribution_points signer crl
      → Source o c cert issuer crl
  by_file :
      (raw : Bytes)
      → cert.crl_distribution_points ≡ []
      → load_cert_file o c.offline_crl_file ≡ ok raw
      → IsCurrent o raw crl
      → Source o c cert issuer crl

-- The certificate's serial number is not in the list it is looked up in.
abbrev pub IsUnrevoked : Outside → Config → Pair → Type 0
IsUnrevoked o c p =
    (crl : RevocationList) × Source o c (p.0) (p.1) crl
    × (is_revoked crl.revoked p.0.serial_number ≡ false)

crl_verify_lem :
    (cert : Certificate) (crl : RevocationList)
    → crl_verify cert crl ≡ ok tt
    → is_revoked crl.revoked cert.serial_number ≡ false
unfolding crl_verify
crl_verify_lem cert crl h =
    elim (if_cases (is_revoked crl.revoked cert.serial_number) (fail err_cert_revoked) (ok tt)
      (ok tt) h) [ inl (revoked, refused) ↦ cc | inr (kept, passed) ↦ kept ]

module _ (o : Outside) where
  check_expiry_lem :
      (crl found : RevocationList)
      → check_expiry o crl ≡ ok found
      → (crl ≡ found) × (ltb crl.next_update o.now ≡ false)
  unfolding check_expiry
  check_expiry_lem crl found h = ground arith

  check_issuer_lem :
      (crl : RevocationList) (issuer : Option Certificate)
      → check_issuer o crl issuer ≡ ok tt
      → (signer : Certificate) × (issuer ≡ some signer) × (o.check_signature crl signer ≡ ok tt)
  unfolding check_issuer
  check_issuer_lem crl none h = cc
  check_issuer_lem crl (some signer) h =
      (signer, refl, ok_of_join _ (o.check_signature crl signer) tt h)

  current_lem :
      (raw block : Bytes) (parsed crl : RevocationList) (err err_parse : Err)
      → or_fail (o.decode_pem raw) err ≡ ok block
      → join err_parse (o.parse_revocation_list block) ≡ ok parsed
      → check_expiry o parsed ≡ ok crl
      → IsCurrent o raw crl
  current_lem raw block parsed crl err err_parse decoded reads unexpired =
      let (same, current) = check_expiry_lem parsed crl unexpired in
      (
        block,
        ok_of_or_fail (o.decode_pem raw) _ block decoded,
        ok_of_join _ (o.parse_revocation_list block) parsed reads ∙ ap ok same,
        subst (λ l. ltb l.next_update o.now ≡ false) same current,
      )

  parse_unsigned :
      (raw : Bytes) (issuer : Option Certificate) (crl : RevocationList)
      → parse_verify_crl o raw issuer false ≡ ok crl
      → IsCurrent o raw crl
  unfolding parse_verify_crl
  parse_unsigned raw issuer crl h =
      let (block, decoded, h1) = ok_of_bind (or_fail (o.decode_pem raw) _) _ crl h in
      let (parsed, reads, h2) = ok_of_bind (join _ (o.parse_revocation_list block)) _ crl h1 in
      current_lem raw block parsed crl _ _ decoded reads h2

  parse_signed :
      (raw : Bytes) (issuer : Option Certificate) (crl : RevocationList)
      → parse_verify_crl o raw issuer true ≡ ok crl
      → (signer : Certificate) × (issuer ≡ some signer)
        × (o.check_signature crl signer ≡ ok tt)
        × IsCurrent o raw crl
  unfolding parse_verify_crl
  parse_signed raw issuer crl h =
      let (block, decoded, h1) = ok_of_bind (or_fail (o.decode_pem raw) _) _ crl h in
      let (parsed, reads, h2) = ok_of_bind (join _ (o.parse_revocation_list block)) _ crl h1 in
      let (u, checked, h3) = ok_of_bind (check_issuer o parsed issuer) _ crl h2 in
      let (signer, is, signed) = check_issuer_lem parsed issuer checked in
      let (same, current) = check_expiry_lem parsed crl h3 in
      (
        signer,
        is,
        subst (λ l. o.check_signature l signer ≡ ok tt) same signed,
        current_lem raw block parsed crl _ _ decoded reads h3,
      )

  retrieve_crl_lem :
      (url : String) (issuer : Option Certificate) (crl : RevocationList)
      → retrieve_crl o url issuer true ≡ ok crl
      → IsServed o url issuer crl
  unfolding retrieve_crl
  retrieve_crl_lem url issuer crl h =
      let (raw, got, h1) = ok_of_bind (read_body (o.http_get url)) _ crl h in
      let (signer, is, signed, current) = parse_signed raw issuer crl h1 in
      (raw, signer, ok_of_read_all _ _ (o.http_get url) raw got, is, signed, current)

  module _ (c : Config) where
    parse_offline_crl_lem :
        (crl : RevocationList) (raw : Bytes)
        → parse_offline_crl o c raw ≡ ok (some crl)
        → IsCurrent o raw crl
    unfolding parse_offline_crl
    parse_offline_crl_lem crl [] h = cc
    parse_offline_crl_lem crl (b ∷ bs) h =
        let (issuer, found, h1) = ok_of_bind (load_offline_crl_issuer_cert o c) _ (some crl) h in
        let (parsed, reads, same) =
          ok_of_bind (parse_verify_crl o (b ∷ bs) none false) _ (some crl) h1 in
        let eq : parsed ≡ crl = cc in
        subst (λ l. IsCurrent o (b ∷ bs) l) eq (parse_unsigned (b ∷ bs) none parsed reads)

    load_offline_crl_lem :
        (crl : RevocationList)
        → load_offline_crl o c ≡ ok (some crl)
        → (raw : Bytes) × (load_cert_file o c.offline_crl_file ≡ ok raw) × IsCurrent o raw crl
    unfolding load_offline_crl
    load_offline_crl_lem crl h =
        let (raw, loaded, h1) =
          ok_of_bind (join _ (load_cert_file o c.offline_crl_file)) _ (some crl) h in
        (
          raw,
          ok_of_join _ (load_cert_file o c.offline_crl_file) raw loaded,
          parse_offline_crl_lem crl raw h1,
        )

    configured_lem :
        (crl : RevocationList)
        → get_configured_crl o c ≡ ok (some crl)
        → (signer : Option Certificate) × (load_dist_point_crl_issuer_cert o c ≡ ok signer)
          × IsServed o c.crl_distribution_points signer crl
    unfolding get_configured_crl retrieve_configured_crl
    configured_lem crl h =
        elim (if_cases
          (not (str_eq c.crl_distribution_points "")
            && not (str_eq c.crl_distribution_points_issuer_cert_file ""))
          (retrieve_configured_crl o c) (ok none) (ok (some crl)) h) [
            | inl (set, h1) ↦
                let (signer, loaded, h2) =
                  ok_of_bind (load_dist_point_crl_issuer_cert o c) _ (some crl) h1 in
                let (got, retrieved, same) =
                  ok_of_bind (retrieve_crl o c.crl_distribution_points signer true) _ (some crl)
                    h2 in
                let eq : got ≡ crl = cc in
                (
                  signer,
                  loaded,
                  subst (λ l. IsServed o c.crl_distribution_points signer l) eq
                      (retrieve_crl_lem c.crl_distribution_points signer got retrieved),
                )
            | inr (unset, h1) ↦ cc
          ]

    get_crl_lem :
        (cert : Certificate) (urls : List String) (issuer : Option Certificate)
        (crl : RevocationList)
        → cert.crl_distribution_points ≡ urls
        → from_distribution_point o c urls issuer ≡ ok (some crl)
        → Source o c cert issuer crl
    unfolding from_distribution_point
    get_crl_lem cert [] issuer crl none_of h =
        let (signer, loaded, served) = configured_lem crl h in
        by_config signer none_of loaded served
    get_crl_lem cert (url ∷ urls) issuer crl some_of h =
        let (got, retrieved, same) = ok_of_bind (retrieve_crl o url issuer true) _ (some crl) h in
        let eq : got ≡ crl = cc in
        by_certificate url urls some_of
          (subst (λ l. IsServed o url issuer l) eq (retrieve_crl_lem url issuer got retrieved))

    no_crl_lem :
        (cert : Certificate) (urls : List String) (issuer : Option Certificate)
        → from_distribution_point o c urls issuer ≡ ok none
        → urls ≡ []
    unfolding from_distribution_point
    no_crl_lem cert [] issuer h = refl
    no_crl_lem cert (url ∷ urls) issuer h =
        let (got, retrieved, same) = ok_of_bind (retrieve_crl o url issuer true) _ none h in cc

    choose_lem :
        (cert : Certificate) (issuer : Option Certificate) (found offline : Option RevocationList)
        (crl : RevocationList)
        → load_offline_crl o c ≡ ok offline
        → get_crl_from_distribution_point o c cert issuer ≡ ok found
        → choose found offline ≡ ok crl
        → Source o c cert issuer crl
    unfolding get_crl_from_distribution_point choose
    choose_lem cert issuer (some got) offline crl loaded served h =
        let eq : got ≡ crl = cc in
        get_crl_lem cert cert.crl_distribution_points issuer crl refl
          (served ∙ ap (λ l. ok (some l)) eq)
    choose_lem cert issuer none (some file) crl loaded unserved h =
        let eq : file ≡ crl = cc in
        let (raw, read, current) = load_offline_crl_lem crl (loaded ∙ ap (λ l. ok (some l)) eq) in
        by_file raw (no_crl_lem cert cert.crl_distribution_points issuer unserved) read current
    choose_lem cert issuer none none crl loaded unserved h = cc

    pub check_cert_lem :
        (offline : Option RevocationList) (cert : Certificate) (issuer : Option Certificate)
        → load_offline_crl o c ≡ ok offline
        → check_cert o c offline cert issuer ≡ ok tt
        → IsUnrevoked o c (cert, issuer)
    unfolding check_cert
    check_cert_lem offline cert issuer loaded h =
        let (found, got, h1) =
          ok_of_bind (get_crl_from_distribution_point o c cert issuer) _ tt h in
        let (crl, chosen, h2) = ok_of_bind (choose found offline) _ tt h1 in
        (
          crl,
          choose_lem cert issuer found offline crl loaded got chosen,
          crl_verify_lem cert crl h2,
        )
