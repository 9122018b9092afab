-- ===== src/Tls/Ocsp/Vouching.antt =====
-- pkg/tls/verifier/ocsp/ocsp.go: a certificate is accepted if and only if its responder says `good`.
use mproxy.Prelude.{
  String, Bool, true, false, not, Option, none, some, List, [], ◌∷◌, ◌≡◌, ◌≤◌, ◌↔◌, refl, sym, ap,
  ◌∙◌, All, All-map, subst, if◌then◌else◌,
}
use mproxy.Prelude.Int.{max_int64}
use mproxy.Errors.{Err}
use mproxy.Errors.Results.{ok, join, or_fail, ◌>>=◌, ok_of_bind, ok_of_join, ok_of_or_fail}
use mproxy.Handler.{Bytes}
use mproxy.Tls.Certs.{Certificate, body, read_all}
use mproxy.Tls.Certs.Checked.{
  Pair, check_all, check_all-All, All-check_all, check_chains-all, check_sent-all, looked_at,
  verify_peer-looked_at, ok_of_read_all,
}
use mproxy.Tls.Ocsp.{
  Config, Query, Status, good, revoked, server_failed, unknown, other_status, Outside, is_root_ca,
  retrieve_issuing_certificate, first_issuer, known_issuer, issuer_of, responder_of, new_query,
  judge, ocsp_verify, verify_raw_peer_certificates, verify_verified_peer_certificates,
  verify_peer_certificate,
}

-- Where the issuer comes from that the responder is asked by.
pub data IssuerFrom (o : Outside) (cert : Certificate) (maybe_issuer : Option Certificate)
    : Certificate → Type 0 where
  itself : is_root_ca cert ≡ true → IssuerFrom o cert maybe_issuer cert
  given :
      (issuer : Certificate)
      → is_root_ca cert ≡ false
      → maybe_issuer ≡ some issuer
      → IssuerFrom o cert maybe_issuer issuer
  fetched :
      (issuer : Certificate) (url : String) (urls : List String) (raw block : Bytes)
      → is_root_ca cert ≡ false
      → maybe_issuer ≡ none
      → cert.issuing_certificate_url ≡ url ∷ urls
      → o.get url ≡ body raw
      → o.decode_pem raw ≡ some block
      → o.parse_certificate block ≡ ok issuer
      → IssuerFrom o cert maybe_issuer issuer

-- The responder's answer to the query that names the certificate and its issuer is `good`.
abbrev pub IsVouched : Outside → Config → Pair → Type 0
IsVouched o c p =
    (issuer : Certificate) × (sent : Bytes) × (place : String × String) × (output : Bytes)
    × IssuerFrom o (p.0) (p.1) issuer
    × (o.create_request p.0 issuer ≡ ok sent)
    × (responder_of o c p.0 ≡ ok place)
    × (o.query_error place.0 ≡ none)
    × (o.post (record { url = place.0; host = place.1; sent = sent }) ≡ body output)
    × (o.parse_response_for_cert output p.0 issuer ≡ ok good)

module _ (o : Outside) where
  first_issuer_lem :
      (cert : Certificate) (urls : List String) (issuer : Certificate)
      → is_root_ca cert ≡ false
      → cert.issuing_certificate_url ≡ urls
      → first_issuer o cert urls ≡ ok issuer
      → IssuerFrom o cert none issuer
  unfolding first_issuer retrieve_issuing_certificate
  first_issuer_lem cert [] issuer other urls h = cc
  first_issuer_lem cert (url ∷ more) issuer other urls h =
      let (raw, got, h1) = ok_of_bind (read_all _ _ (o.get url)) _ issuer h in
      let (block, decoded, h2) = ok_of_bind (or_fail (o.decode_pem raw) _) _ issuer h1 in
      fetched issuer url more raw block other refl urls (ok_of_read_all _ _ (o.get url) raw got)
        (ok_of_or_fail (o.decode_pem raw) _ block decoded)
        (ok_of_join _ (o.parse_certificate block) issuer h2)

  known_issuer_lem :
      (cert : Certificate) (maybe_issuer : Option Certificate) (issuer : Certificate)
      → is_root_ca cert ≡ false
      → known_issuer o cert maybe_issuer ≡ ok issuer
      → IssuerFrom o cert maybe_issuer issuer
  unfolding known_issuer
  known_issuer_lem cert none issuer other h = first_issuer_lem cert _ issuer other refl h
  known_issuer_lem cert (some i) issuer other h =
      given issuer other (let same : i ≡ issuer = cc in ap some same)

  by_root_lem :
      (cert : Certificate) (maybe_issuer : Option Certificate) (issuer : Certificate) (root : Bool)
      → is_root_ca cert ≡ root
      → (if not root then known_issuer o cert maybe_issuer else ok cert) ≡ ok issuer
      → IssuerFrom o cert maybe_issuer issuer
  by_root_lem cert maybe_issuer issuer true root h =
      let same : cert ≡ issuer = cc in
      subst (λ i. IssuerFrom o cert maybe_issuer i) same (itself root)
  by_root_lem cert maybe_issuer issuer false other h =
      known_issuer_lem cert maybe_issuer issuer other h

  issuer_of_lem :
      (cert : Certificate) (maybe_issuer : Option Certificate) (issuer : Certificate)
      → issuer_of o cert maybe_issuer ≡ ok issuer
      → IssuerFrom o cert maybe_issuer issuer
  unfolding issuer_of
  issuer_of_lem cert maybe_issuer issuer h =
      by_root_lem cert maybe_issuer issuer (is_root_ca cert) refl h

  issuer_of-from :
      (cert : Certificate) (maybe_issuer : Option Certificate) (issuer : Certificate)
      → IssuerFrom o cert maybe_issuer issuer
      → issuer_of o cert maybe_issuer ≡ ok issuer
  unfolding issuer_of known_issuer first_issuer retrieve_issuing_certificate read_all
  issuer_of-from cert m issuer (itself root) = rw root refl
  issuer_of-from cert m issuer (given i other is) = rw (other, is) refl
  issuer_of-from cert m issuer
        (fetched i url urls raw block other lacks points got decoded parsed) =
      rw (other, lacks, points, got, decoded, parsed) refl

  new_query_lem :
      (place : String × String) (sent : Bytes) (e : Option Err) (query : Query)
      → new_query o place sent e ≡ ok query
      → (e ≡ none) × (query ≡ record { url = place.0; host = place.1; sent = sent })
  unfolding new_query
  new_query_lem place sent (some e) query h = cc
  new_query_lem place sent none query h = (refl, cc)

  judge_lem : (cert : Certificate) (status : Status) → judge o cert status ≡ ok tt → status ≡ good
  unfolding judge
  judge_lem cert good h = refl
  judge_lem cert revoked h = cc
  judge_lem cert server_failed h = cc
  judge_lem cert unknown h = cc
  judge_lem cert other_status h = cc

  ocsp_verify_lem :
      (c : Config) (cert : Certificate) (maybe_issuer : Option Certificate)
      → ocsp_verify o c cert maybe_issuer ≡ ok tt
      → IsVouched o c (cert, maybe_issuer)
  unfolding ocsp_verify
  ocsp_verify_lem c cert m h =
      let (issuer, issued, h1) = ok_of_bind (issuer_of o cert m) _ tt h in
      let (sent, created, h2) = ok_of_bind (join _ (o.create_request cert issuer)) _ tt h1 in
      let (place, placed, h3) = ok_of_bind (responder_of o c cert) _ tt h2 in
      let (query, made, h4) =
        ok_of_bind (new_query o place sent (o.query_error (place.0))) _ tt h3 in
      let (output, answered, h5) = ok_of_bind (read_all _ _ (o.post query)) _ tt h4 in
      let (status, read, h6) =
        ok_of_bind (join _ (o.parse_response_for_cert output cert issuer)) _ tt h5 in
      let (no_error, is) = new_query_lem place sent (o.query_error (place.0)) query made in
      (
        issuer,
        sent,
        place,
        output,
        issuer_of_lem cert m issuer issued,
        ok_of_join _ (o.create_request cert issuer) sent created,
        placed,
        no_error,
        ap (λ q. o.post q) (sym is) ∙ ok_of_read_all _ _ (o.post query) output answered,
        ok_of_join _ (o.parse_response_for_cert output cert issuer) status read
            ∙ ap ok (judge_lem cert status h6),
      )

  ocsp_verify-vouched :
      (c : Config) (cert : Certificate) (maybe_issuer : Option Certificate)
      → IsVouched o c (cert, maybe_issuer)
      → ocsp_verify o c cert maybe_issuer ≡ ok tt
  unfolding ocsp_verify read_all new_query judge
  ocsp_verify-vouched c cert m
        (issuer, sent, place, output, from, created, placed, no_error, answered, parsed) =
      rw (issuer_of-from cert m issuer from, created, placed, no_error, answered, parsed) refl

-- For an `int` depth, a run is the check of what it looks at, one after the other until one fails.
pub ocsp_verify_peer-looked_at :
    (o : Outside) (c : Config) (raws : List Bytes) (chains : List (List Certificate))
    → c.ocsp_depth ≤ max_int64
    → verify_peer_certificate o c raws chains ≡ (
        looked_at "ocsp" o.parse_certificate c.ocsp_depth raws chains
        >>= check_all (ocsp_verify o c))
unfolding verify_peer_certificate verify_raw_peer_certificates verify_verified_peer_certificates
ocsp_verify_peer-looked_at o c raws chains small =
    verify_peer-looked_at "ocsp" o.parse_certificate _ _ (check_all (ocsp_verify o c)) c.ocsp_depth
      (λ peers. check_sent-all (ocsp_verify o c) c.ocsp_depth peers small)
      (check_chains-all (ocsp_verify o c)) raws chains

-- The verifier accepts exactly if there are certificates to look at, they parse, and the responder
-- answers `good` for each of them. Those looked at are all of the verified chains, whatever the depth,
-- or, if there are no such chains, those sent up to the depth.
pub ocsp_verify_peer-accepts :
    (o : Outside) (c : Config) (raws : List Bytes) (chains : List (List Certificate))
    → c.ocsp_depth ≤ max_int64
    → verify_peer_certificate o c raws chains ≡ ok tt
      ↔ (pairs : List Pair) × (looked_at "ocsp" o.parse_certificate c.ocsp_depth raws chains
          ≡ ok pairs)
        × All (IsVouched o c) pairs
ocsp_verify_peer-accepts o c raws chains small =
    let run = ocsp_verify_peer-looked_at o c raws chains small in
    (
      (λ h.
          let (pairs, looked, h1) =
            ok_of_bind (looked_at "ocsp" o.parse_certificate c.ocsp_depth raws chains) _ tt
              (sym run ∙ h) in
          (
            pairs,
            looked,
            All-map (λ p. ocsp_verify_lem o c p.0 p.1) pairs
                (check_all-All (ocsp_verify o c) pairs h1),
          )),
      (λ h.
          let (pairs, looked, vouched) = h in
          rw (run, looked)
            (All-check_all (ocsp_verify o c) pairs
              (All-map (λ p. ocsp_verify-vouched o c p.0 p.1) pairs vouched))),
    )
