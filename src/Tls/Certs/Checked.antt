-- ===== src/Tls/Certs/Checked.antt =====
-- pkg/tls/verifier: which certificates the verifiers' loops look at.
use mproxy.Prelude.{
  ℕ, zero, suc, String, true, false, Option, some, List, [], ◌∷◌, ◌++◌, map, flatten, take, All,
  ◌≡◌, ◌≢◌, ◌+◌, refl, sym, ap, ◌∙◌, arith, ◌≤◌,
}
use mproxy.Prelude.Int.{i64, pos, i64_id, max_int64}
use mproxy.Errors.Results.{
  Result, ok, fail, ◌>>=◌, ◌>>◌, ok_of_bind, bind_assoc, bind_cong, bind_map,
}
use mproxy.Handler.{Bytes}
use mproxy.Errors.{Err}
use mproxy.Tls.Certs.{
  Fetched, unreachable, unreadable, body, read_all, Certificate, retrieve_issuer_cert, check_sent,
  check_chain, check_chains, eq_ℤ, parse_certificates, err_client_crt, verify_peer,
}

-- A certificate and what it is checked against.
abbrev pub Pair : Type 0
Pair = Certificate × Option Certificate

-- The certificates of a chain, each with the next one, the last with itself.
abbrev pub in_chain : List Certificate → List Pair
in_chain [] = []
in_chain (cert ∷ []) = (cert, some cert) ∷ []
in_chain (cert ∷ issuer ∷ certs) = (cert, some issuer) ∷ in_chain (issuer ∷ certs)

-- The certificates as they were sent, each with the first that has its issuer's name.
abbrev pub as_sent : List Certificate → List Certificate → List Pair
as_sent peers [] = []
as_sent peers (cert ∷ certs) = (cert, retrieve_issuer_cert cert.issuer peers) ∷ as_sent peers certs

-- The first `depth` entries, or all if `depth` is 0.
abbrev pub to_depth {ℓ} : {A : Type ℓ} → ℕ → List A → List A
to_depth zero entries = entries
to_depth (suc d) entries = take (suc d) entries

at_depth-is :
    (depth i : ℕ) → depth ≤ max_int64 → depth ≡ suc i → eq_ℤ (pos (suc i)) (i64 (pos depth)) ≡ true
at_depth-is depth i small is = rw (i64_id (pos depth) small) (ground arith)

at_depth-differs :
    (depth i : ℕ) → depth ≤ max_int64 → depth ≢ suc i → eq_ℤ (pos (suc i)) (i64 (pos depth)) ≡ false
at_depth-differs depth i small differs = rw (i64_id (pos depth) small) (ground arith)

module _ (check : Certificate → Option Certificate → Result (Unit {0})) where
  -- The checks one after the other, up to the first that fails.
  abbrev pub check_all : List Pair → Result (Unit {0})
  check_all [] = ok tt
  check_all (p ∷ ps) = let later = check_all ps in check p.0 p.1 >> later

  abbrev pub Passes : Pair → Type 0
  Passes p = check p.0 p.1 ≡ ok tt

  check_all-append : (ps qs : List Pair) → check_all (ps ++ qs) ≡ (check_all ps >> check_all qs)
  check_all-append [] qs = refl
  check_all-append (p ∷ ps) qs =
      ap (λ later. check p.0 p.1 >> later) (check_all-append ps qs)
      ∙ sym (bind_assoc (check p.0 p.1) (check_all ps) (check_all qs))

  check_chain-all :
      (chain : List Certificate) → check_chain check chain ≡ check_all (in_chain chain)
  unfolding check_chain
  check_chain-all [] = refl
  check_chain-all (cert ∷ []) = refl
  check_chain-all (cert ∷ issuer ∷ certs) =
      ap (λ later. check cert (some issuer) >> later) (check_chain-all (issuer ∷ certs))

  pub check_all-All : (ps : List Pair) → check_all ps ≡ ok tt → All Passes ps
  check_all-All [] h = tt
  check_all-All (p ∷ ps) h =
      let (u, done, rest) = ok_of_bind (check p.0 p.1) (λ v. check_all ps) tt h in
      (done, check_all-All ps rest)

  pub check_chains-all :
      (chains : List (List Certificate))
      → check_chains check chains ≡ check_all (flatten (map in_chain chains))
  unfolding check_chains
  check_chains-all [] = refl
  check_chains-all (chain ∷ chains) =
      rw (check_chain-all chain, check_chains-all chains)
        (sym (check_all-append (in_chain chain) (flatten (map in_chain chains))))

  check_sent-past :
      (depth i : ℕ) (peers certs : List Certificate)
      → depth ≤ max_int64
      → depth ≤ i
      → check_sent check depth i peers certs ≡ check_all (as_sent peers certs)
  unfolding check_sent
  check_sent-past depth i peers [] small past = refl
  check_sent-past depth i peers (cert ∷ certs) small past =
      let rest = check_sent-past depth (suc i) peers certs small (omega arith) in
      let test = at_depth-differs depth i small (omega arith) in rw (test, rest) refl

  check_sent-to :
      (depth i d : ℕ) (peers certs : List Certificate)
      → depth ≤ max_int64
      → depth ≡ suc d + i
      → check_sent check depth i peers certs ≡ check_all (as_sent peers (take (suc d) certs))
  unfolding check_sent
  check_sent-to depth i d peers [] small is = refl
  check_sent-to depth i zero peers (cert ∷ certs) small is =
      let test = at_depth-is depth i small (omega arith) in rw test refl
  check_sent-to depth i (suc d) peers (cert ∷ certs) small is =
      let rest = check_sent-to depth (suc i) d peers certs small (omega arith) in
      let test = at_depth-differs depth i small (omega arith) in rw (test, rest) refl

  pub check_sent-all :
      (depth : ℕ) (peers : List Certificate)
      → depth ≤ max_int64
      → check_sent check depth 0 peers peers ≡ check_all (as_sent peers (to_depth depth peers))
  check_sent-all zero peers small = check_sent-past zero 0 peers peers small (omega arith)
  check_sent-all (suc d) peers small = check_sent-to (suc d) 0 d peers peers small (omega arith)

  pub All-check_all : (ps : List Pair) → All Passes ps → check_all ps ≡ ok tt
  All-check_all [] h = refl
  All-check_all (p ∷ ps) h = rw (h.0) (All-check_all ps h.1)

pub ok_of_read_all :
    (err_request err_read : Err) (f : Fetched) (raw : Bytes)
    → read_all err_request err_read f ≡ ok raw
    → f ≡ body raw
unfolding read_all
ok_of_read_all err_request err_read (unreachable e) raw h = cc
ok_of_read_all err_request err_read (unreadable e) raw h = cc
ok_of_read_all err_request err_read (body b) raw h = cc

-- What `VerifyPeerCertificate` looks at: all of the verified chains if there are any; otherwise, the
-- first certificates that were sent, up to the depth, or all for 0. There is an error if none was sent
-- or one that was sent does not parse.
unfoldable pub looked_at :
    String
    → (Bytes → Result Certificate)
    → ℕ
    → List Bytes
    → List (List Certificate)
    → Result (List Pair)
looked_at owner parse depth raws (chain ∷ chains) = ok (flatten (map in_chain (chain ∷ chains)))
looked_at owner parse depth (raw ∷ raws) [] =
    parse_certificates owner parse (raw ∷ raws) >>= λ peers.
    ok (as_sent peers (to_depth depth peers))
looked_at owner parse depth [] [] = fail (err_client_crt owner)

module _ (owner : String) (parse : Bytes → Result Certificate) where
  pub verify_peer-looked_at :
      (check_peers : List Certificate → Result (Unit {0}))
      (check_verified : List (List Certificate) → Result (Unit {0}))
      (check_pairs : List Pair → Result (Unit {0})) (depth : ℕ)
      → ((peers : List Certificate)
          → check_peers peers ≡ check_pairs (as_sent peers (to_depth depth peers)))
      → ((chains : List (List Certificate))
          → check_verified chains ≡ check_pairs (flatten (map in_chain chains)))
      → (raws : List Bytes) (chains : List (List Certificate))
      → verify_peer owner parse check_peers check_verified raws chains
        ≡ (looked_at owner parse depth raws chains >>= check_pairs)
  unfolding verify_peer looked_at
  verify_peer-looked_at check_peers check_verified check_pairs depth sent verified raws
        (chain ∷ chains) =
      verified (chain ∷ chains)
  verify_peer-looked_at check_peers check_verified check_pairs depth sent verified (raw ∷ raws) [] =
      let parsed = parse_certificates owner parse (raw ∷ raws) in
      bind_cong parsed sent
      ∙ bind_map parsed (λ peers. as_sent peers (to_depth depth peers)) check_pairs
  verify_peer-looked_at check_peers check_verified check_pairs depth sent verified [] [] = refl
