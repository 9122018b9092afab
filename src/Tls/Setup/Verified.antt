-- ===== src/Tls/Setup/Verified.antt =====
-- pkg/tls: when a server verifies its clients, and by what.
use mproxy.Prelude.{
  ◌||◌, Option, none, some, List, [], ◌∷◌, str_eq, ◌≡◌, ◌↔◌, inl, inr, refl, sym, ap, ◌∙◌, All,
  if_cases, subst,
}
use mproxy.Errors.{Err}
use mproxy.Errors.Results.{ok, join, or_fail, ok_of_bind, ok_of_join}
use mproxy.Handler.{Bytes}
use mproxy.Tls.Certs.{Certificate}
use mproxy.Tls.Verifications.{Verification}
use mproxy.Tls.Setup.{
  Validator, new_validator, Config, Environment, parse_methods, new_verifier, make_verifiers,
  new_verifiers, new_config, require_and_verify_client_cert, ServerConfig, Files, load_cert_file,
  or_new, add_root, install, add_client, load_files, load_tls_config,
}

-- The method's own verifier accepts.
abbrev pub Accepts : Environment → List Bytes → List (List Certificate) → Verification → Type 0
Accepts env raws chains m =
    (vm : Validator) × (new_verifier env m ≡ ok vm) × (vm raws chains ≡ ok tt)

module _ (env : Environment) (raws : List Bytes) (chains : List (List Certificate)) where
  made_accept :
      (ms : List Verification) (vms : List Validator)
      → make_verifiers env ms ≡ ok vms
      → new_validator vms raws chains ≡ ok tt
      → All (Accepts env raws chains) ms
  unfolding make_verifiers new_validator
  made_accept [] vms made h = tt
  made_accept (m ∷ ms) vms made h =
      let (vm, new, h1) = ok_of_bind (new_verifier env m) _ vms made in
      let (more, later, h2) = ok_of_bind (make_verifiers env ms) _ vms h1 in
      let same : vm ∷ more ≡ vms = cc in
      let run = subst (λ l. new_validator l raws chains ≡ ok tt) (sym same) h in
      let (u, accepts, rest) =
        ok_of_bind (vm raws chains) (λ x. new_validator more raws chains) tt run in
      ((vm, new, accepts), made_accept ms more later rest)

  accept_made :
      (ms : List Verification) (vms : List Validator)
      → make_verifiers env ms ≡ ok vms
      → All (Accepts env raws chains) ms
      → new_validator vms raws chains ≡ ok tt
  unfolding make_verifiers new_validator
  accept_made [] vms made h =
      let same : [] ≡ vms = cc in subst (λ l. new_validator l raws chains ≡ ok tt) same refl
  accept_made (m ∷ ms) vms made h =
      let (vm, new, h1) = ok_of_bind (new_verifier env m) _ vms made in
      let (more, later, h2) = ok_of_bind (make_verifiers env ms) _ vms h1 in
      let same : vm ∷ more ≡ vms = cc in
      let (vm_, new_, accepts) = h.0 in
      let own : vm_ ≡ vm = cc in
      let accepts_ = subst (λ v. v raws chains ≡ ok tt) own accepts in
      subst (λ l. new_validator l raws chains ≡ ok tt) same
        (rw accepts_ (accept_made ms more later h.1))

module _ {KeyPair Pool : Type 0} (o : Files KeyPair Pool) (c : Config) where
  -- The server asks clients as it did before.
  abbrev pub IsOpen : ServerConfig KeyPair Pool → ServerConfig KeyPair Pool → Type 0
  IsOpen s r =
      (r.verify_peer_certificate ≡ s.verify_peer_certificate)
      × (r.client_auth ≡ s.client_auth)
      × (r.client_cas ≡ s.client_cas)

  -- The server asks for a certificate that is signed by one of the authorities it had or by those of
  -- the file, and `v` verifies it as well.
  abbrev pub IsClosed :
      Validator → Bytes → ServerConfig KeyPair Pool → ServerConfig KeyPair Pool → Type 0
  IsClosed v raw s r =
      (r.verify_peer_certificate ≡ some v)
      × (r.client_auth ≡ require_and_verify_client_cert)
      × (pool : Pool) × (o.append_certs (or_new o s.client_cas) raw ≡ some pool)
      × (r.client_cas ≡ some pool)

  -- Which of the two holds goes by what the file of the client authority has.
  abbrev pub Asks :
      Validator → Bytes → ServerConfig KeyPair Pool → ServerConfig KeyPair Pool → Type 0
  Asks v [] s r = IsOpen s r
  Asks v (b ∷ bs) s r = IsClosed v (b ∷ bs) s r

  add_root_lem :
      (raw : Bytes) (s r : ServerConfig KeyPair Pool) → add_root o raw s ≡ ok r → IsOpen s r
  unfolding add_root
  add_root_lem [] s r h = let same : s ≡ r = cc in subst (IsOpen s) same (refl, refl, refl)
  add_root_lem (b ∷ bs) s r h =
      let (pool, added, h1) =
        ok_of_bind (or_fail (o.append_certs (or_new o s.root_cas) (b ∷ bs)) _) _ r h in
      let same : record s { root_cas = some pool } ≡ r = cc in
      subst (IsOpen s) same (refl, refl, refl)

  or_fail-ok : (p : Option Pool) (e : Err) (pool : Pool) → or_fail p e ≡ ok pool → p ≡ some pool
  or_fail-ok none e pool h = cc
  or_fail-ok (some q) e pool h = cc

  add_client_lem :
      (v : Validator) (raw : Bytes) (s r : ServerConfig KeyPair Pool)
      → add_client o (some v) raw s ≡ ok r
      → Asks v raw s r
  unfolding add_client
  add_client_lem v [] s r h = let same : s ≡ r = cc in subst (IsOpen s) same (refl, refl, refl)
  add_client_lem v (b ∷ bs) s r h =
      let (pool, added, h1) =
        ok_of_bind (or_fail (o.append_certs (or_new o s.client_cas) (b ∷ bs)) _) _ r h in
      let done : ServerConfig KeyPair Pool =
        install o (some v)
          (record s { client_cas = some pool; client_auth = require_and_verify_client_cert }) in
      let same : done ≡ r = cc in
      subst (IsClosed v (b ∷ bs) s) same (refl, refl, pool, or_fail-ok _ _ pool added, refl)

  Asks-trans :
      (v : Validator) (raw : Bytes) (s t r : ServerConfig KeyPair Pool)
      → IsOpen s t
      → Asks v raw t r
      → Asks v raw s r
  Asks-trans v [] s t r before after = (after.0 ∙ before.0, after.1 ∙ before.1, after.2 ∙ before.2)
  Asks-trans v (b ∷ bs) s t r before after =
      let (verify, auth, pool, added, cas) = after in
      (
        verify,
        auth,
        pool,
        subst (λ x. o.append_certs (or_new o x) (b ∷ bs) ≡ some pool) before.2 added,
        cas,
      )

  -- What the file of the client authority has, and what follows from that.
  abbrev pub IsLoaded : Validator → ServerConfig KeyPair Pool → ServerConfig KeyPair Pool → Type 0
  IsLoaded v s r =
      (raw : Bytes) × (load_cert_file o.read_file c.client_ca_file ≡ ok raw) × Asks v raw s r

  load_files_lem :
      (v : Validator) (s r : ServerConfig KeyPair Pool)
      → c.validator ≡ some v
      → load_files o c s ≡ ok (some r)
      → IsLoaded v s r
  unfolding load_files
  load_files_lem v s r has h =
      let (key, keyed, h1) =
        ok_of_bind (join _ (o.load_key_pair c.cert_file c.key_file)) _ (some r) h in
      let (root, rooted, h2) =
        ok_of_bind (join _ (load_cert_file o.read_file c.server_ca_file)) _ (some r) h1 in
      let (client, read, h3) =
        ok_of_bind (join _ (load_cert_file o.read_file c.client_ca_file)) _ (some r) h2 in
      let (s1, first, h4) = ok_of_bind (add_root o root _) _ (some r) h3 in
      let (s2, second, h5) = ok_of_bind (add_client o c.validator client s1) _ (some r) h4 in
      let same : s2 ≡ r = cc in
      let added : add_client o (some v) client s1 ≡ ok r = rw⁻¹ has (second ∙ ap ok same) in
      let keyed_config : ServerConfig KeyPair Pool = record s { certificates = key ∷ [] } in
      (
        client,
        ok_of_join _ (load_cert_file o.read_file c.client_ca_file) client read,
        Asks-trans v client s s1 r (add_root_lem root keyed_config s1 first)
            (add_client_lem v client s1 r added),
      )

  load_lem :
      (v : Validator) (s r : ServerConfig KeyPair Pool)
      → c.validator ≡ some v
      → load_tls_config o c s ≡ ok (some r)
      → IsLoaded v s r
  unfolding load_tls_config
  load_lem v s r has h =
      elim (if_cases (str_eq c.cert_file "" || str_eq c.key_file "") (ok none) (load_files o c s)
        (ok (some r)) h) [
          | inl (absent, no_config) ↦ cc
          | inr (present, loaded) ↦ load_files_lem v s r has loaded
        ]

-- A configuration made from the environment and then loaded, so that a server has it. If the client
-- authority's file is not named, or is empty, the configured methods of verification are dropped and
-- the server asks clients as before. If it has something, the server requires a certificate signed by
-- an authority of its pool, which is the pool that it had with the file's certificates added, and
-- verifies it by a function that accepts exactly if the verifier of each configured method does.
pub new_config-load_tls_config :
    {KeyPair Pool : Type 0} (env : Environment) (o : Files KeyPair Pool) (c : Config)
    (s r : ServerConfig KeyPair Pool)
    → new_config env ≡ ok c
    → load_tls_config o c s ≡ ok (some r)
    → (v : Validator) × IsLoaded o c v s r
      × ((raws : List Bytes) (chains : List (List Certificate))
          → v raws chains ≡ ok tt ↔ (
              (ms : List Verification) × (parse_methods env env.methods ≡ ok ms)
              × All (Accepts env raws chains) ms))
unfolding new_config new_verifiers
new_config-load_tls_config env o c s r made loaded =
    let (files, read, h1) = ok_of_bind env.files _ c made in
    let (vms, all_new, h2) = ok_of_bind (new_verifiers env) _ c h1 in
    let (ms, parsed, new) =
      ok_of_bind (parse_methods env env.methods) (make_verifiers env) vms all_new in
    let same : record files { validator = some (new_validator vms) } ≡ c = cc in
    (
      new_validator vms,
      load_lem o c (new_validator vms) s r (ap (λ x. x.validator) (sym same)) loaded,
      λ raws chains. (
        (λ h. (ms, parsed, made_accept env raws chains ms vms new h)),
        (λ h.
            let (ms_, parsed_, accepts) = h in
            let own : ms_ ≡ ms = cc in
            accept_made env raws chains ms vms new
              (subst (All (Accepts env raws chains)) own accepts)),
      ),
    )
