-- ===== src/Health/Reports.antt =====
-- pkg/health/health.go: what the overall status says, and when a check is run.
use mproxy.Prelude.{
  ℕ, String, Bool, true, ◌&&◌, List, [], ◌∷◌, ◌≡◌, refl, arith, if◌then◌else◌, ◌⊎◌, inl, inr, some,
  none, false, subst, sym, Option-cases, Bool-cases, eq_iff,
}
use mproxy.Prelude.Int.{ℤ}
use mproxy.Prelude.Maps.{Dict, lookup, insert, lookup-insert}
use mproxy.Health.{
  Status, healthy, degraded, Check, Checker, Probe, is_healthy, run_check, is_fresh, check_one,
  check_all, health, http_code, readiness_code,
}

unfoldable pub all_healthy : List Check → Bool
all_healthy [] = true
all_healthy (c ∷ cs) = is_healthy c.status && all_healthy cs

-- The cache keeps each check under its name.
abbrev pub IsNamed : Dict Check → Type 0
IsNamed [] = Unit {0}
IsNamed ((k, c) ∷ cs) = (c.name ≡ k) × IsNamed cs

-- Each report is of the registered check at its place and carries its name: the result of running it
-- now, or the check's own entry of the cache, which is still fresh.
abbrev pub Reported : (String → Probe) → ℤ → Dict Check → Dict ℕ → List Check → Type 0
Reported probe ttl cache [] [] = Unit {0}
Reported probe ttl cache [] (c ∷ cs) = ⊥
Reported probe ttl cache ((name, f) ∷ checks) [] = ⊥
Reported probe ttl cache ((name, f) ∷ checks) (c ∷ cs) =
    (c.name ≡ name)
    × ((c ≡ run_check name (probe name))
        ⊎ ((lookup name cache ≡ some c) × (is_fresh ttl (probe name) c ≡ true)))
    × Reported probe ttl cache checks cs

insert-IsNamed :
    (k : String) (c : Check) (cs : Dict Check) → c.name ≡ k → IsNamed cs → IsNamed (insert k c cs)
unfolding insert
insert-IsNamed k c [] same named = (same, tt)
insert-IsNamed k c ((j, d) ∷ cs) same named = ground (arith, insert-IsNamed k c cs same, eq_iff j k)

lookup-IsNamed :
    (k : String) (c : Check) (cs : Dict Check) → IsNamed cs → lookup k cs ≡ some c → c.name ≡ k
unfolding lookup
lookup-IsNamed k c [] named e = cc
lookup-IsNamed k c ((j, d) ∷ cs) named e = ground (arith, lookup-IsNamed k c cs named.1, eq_iff j k)

module _ (probe : String → Probe) where
  -- What a cache has that another has not is a result of now.
  abbrev Renews : Dict Check → Dict Check → Type 0
  Renews cache cache' =
      (name : String) (c : Check)
      → lookup name cache' ≡ some c
      → (lookup name cache ≡ some c) ⊎ (c ≡ run_check name (probe name))

  insert-Renews :
      (name : String) (cache : Dict Check)
      → Renews cache (insert name (run_check name (probe name)) cache)
  insert-Renews name cache j c e =
      ground (arith, lookup-insert name j (run_check name (probe name)) cache, eq_iff name j)

  -- One round: its report, and the cache that it leaves.
  abbrev Round : ℤ → String → Dict Check → Check × Dict Check → Type 0
  Round ttl name cache (c, cache') =
      (c.name ≡ name)
      × ((c ≡ run_check name (probe name))
          ⊎ ((lookup name cache ≡ some c) × (is_fresh ttl (probe name) c ≡ true)))
      × Renews cache cache'
      × IsNamed cache'

  renew-Round :
      (ttl : ℤ) (name : String) (cache : Dict Check)
      → IsNamed cache
      → Round ttl name cache
          (run_check name (probe name), insert name (run_check name (probe name)) cache)
  unfolding run_check
  renew-Round ttl name cache named =
      (refl, inl refl, insert-Renews name cache, insert-IsNamed name _ cache refl named)

  used-Round :
      (ttl : ℤ) (name : String) (cache : Dict Check) (c : Check)
      → IsNamed cache
      → lookup name cache ≡ some c
      → is_fresh ttl (probe name) c ≡ true
      → Round ttl name cache (c, cache)
  used-Round ttl name cache c named e fresh =
      (lookup-IsNamed name c cache named e, inr (e, fresh), (λ j d q. inl q), named)

  check_one-renewed :
      (ttl : ℤ) (name : String) (cache : Dict Check)
      → (lookup name cache ≡ none)
        ⊎ ((c : Check) × (lookup name cache ≡ some c) × (is_fresh ttl (probe name) c ≡ false))
      → check_one ttl name (probe name) cache
        ≡ (run_check name (probe name), insert name (run_check name (probe name)) cache)
  unfolding check_one
  check_one-renewed ttl name cache (inl e) = rw (e, check_one) refl
  check_one-renewed ttl name cache (inr (c, e, stale)) = rw (e, check_one) (rw stale refl)

  check_one-used :
      (ttl : ℤ) (name : String) (cache : Dict Check) (c : Check)
      → lookup name cache ≡ some c
      → is_fresh ttl (probe name) c ≡ true
      → check_one ttl name (probe name) cache ≡ (c, cache)
  unfolding check_one
  check_one-used ttl name cache c e fresh = rw (e, check_one) (rw fresh refl)

  check_one-Round :
      (ttl : ℤ) (name : String) (cache : Dict Check)
      → IsNamed cache
      → Round ttl name cache (check_one ttl name (probe name) cache)
  check_one-Round ttl name cache named = elim (Option-cases (lookup name cache)) [
    | inl e ↦
        subst (Round ttl name cache) (sym (check_one-renewed ttl name cache (inl e)))
          (renew-Round ttl name cache named)
    | inr (c, e) ↦ elim (Bool-cases (is_fresh ttl (probe name) c)) [
      | inl fresh ↦
          subst (Round ttl name cache) (sym (check_one-used ttl name cache c e fresh))
            (used-Round ttl name cache c named e fresh)
      | inr stale ↦
          subst (Round ttl name cache) (sym (check_one-renewed ttl name cache (inr (c, e, stale))))
            (renew-Round ttl name cache named)
    ]
  ]

  Reported-Renews :
      (ttl : ℤ) (cache cache' : Dict Check) (checks : Dict ℕ) (reports : List Check)
      → Renews cache cache'
      → Reported probe ttl cache' checks reports
      → Reported probe ttl cache checks reports
  Reported-Renews ttl cache cache' [] [] more r = tt
  Reported-Renews ttl cache cache' [] (c ∷ cs) more r = r
  Reported-Renews ttl cache cache' ((name, f) ∷ checks) [] more r = r
  Reported-Renews ttl cache cache' ((name, f) ∷ checks) (c ∷ cs) more r =
      (r.0, ground (arith, r.1, more name c), Reported-Renews ttl cache cache' checks cs more r.2)

  check_all-Reported :
      (ttl : ℤ) (checks : Dict ℕ) (overall : Status) (cache : Dict Check)
      → IsNamed cache
      → let (overall', reports, cache') = check_all probe ttl checks overall cache in
        Reported probe ttl cache checks reports
        × IsNamed cache'
        × (overall' ≡ (if all_healthy reports then overall else degraded))
  unfolding check_all all_healthy
  check_all-Reported ttl [] overall cache named = (tt, named, refl)
  check_all-Reported ttl ((name, f) ∷ checks) overall cache named =
      let (c, cache') = check_one ttl name (probe name) cache in
      let (same, own, more, named') = check_one-Round ttl name cache named in
      let rest =
        check_all-Reported ttl checks (if is_healthy c.status then overall else degraded) cache'
          named' in
      (
        (same, own, Reported-Renews ttl cache cache' checks _ more rest.0),
        rest.1,
        ground (arith, rest.2),
      )

  -- `Health` of a checker whose cache keeps each check under its name, as it does from the start and
  -- after any `Health`. It reports on every registered check, once and in order: the report carries the
  -- check's name, and is the result of running it now or the check's own entry of the cache, younger
  -- than the ttl. The overall status is healthy exactly if all of these are, and degraded otherwise:
  -- so `ReadinessHandler` answers 200 exactly if all are healthy, and `HTTPHandler` in any case.
  pub health-Reported :
      (c : Checker)
      → IsNamed c.cache
      → let (overall, reports, c') = health probe c in
        Reported probe c.ttl c.cache c.checks reports
        × IsNamed c'.cache
        × (overall ≡ (if all_healthy reports then healthy else degraded))
        × (readiness_code overall ≡ (if all_healthy reports then 200 else 503))
        × (http_code overall ≡ 200)
  unfolding health readiness_code http_code
  health-Reported c named =
      let r = check_all-Reported c.ttl c.checks healthy c.cache named in
      (r.0, r.1, r.2, ground (arith, r.2), ground (arith, r.2))
