-- ===== src/Health.antt =====
-- pkg/health/health.go. `probe` gives what happens when a check is looked at: the readings of the
-- clock, and the result if it is run. The texts of the answers are left out.
pub mod Reports
use mproxy.Prelude.{
  ℕ, String, Bool, true, false, not, ◌||◌, Option, none, some, List, [], ◌∷◌, if◌then◌else◌,
}
use mproxy.Prelude.Int.{ℤ, pos, ltb_ℤ, since, default_if_zero}
use mproxy.Prelude.Maps.{Dict, lookup, insert}
use mproxy.Errors.{Err}

pub data Status : Type 0 where
  healthy degraded unhealthy : Status

pub record Check : Type 0 where
  pub name : String
  pub status : Status
  pub message : Option Err
  pub last_checked : ℕ
  pub duration : ℤ

-- `checks` names the check functions.
pub record Checker : Type 0 where
  pub checks : Dict ℕ
  pub cache : Dict Check
  pub ttl : ℤ

-- `seen` is when the cache is looked at; `started`, `ended` and `stamped` are read if the check is
-- run.
pub record Probe : Type 0 where
  pub seen : ℕ
  pub started : ℕ
  pub ended : ℕ
  pub stamped : ℕ
  pub result : Option Err

unfoldable pub new_checker : ℤ → Checker
unfolding default_if_zero
new_checker cache_ttl = record {
  checks = [];
  cache = [];
  ttl = default_if_zero cache_ttl (pos 10000000000);
}

unfoldable pub register : Checker → String → ℕ → Checker
register c name check = record c { checks = insert name check c.checks }

abbrev pub is_healthy : Status → Bool
is_healthy healthy = true
is_healthy _ = false

status_of : Option Err → Status
status_of none = healthy
status_of (some e) = unhealthy

unfoldable pub run_check : String → Probe → Check
unfolding status_of
run_check name p = record {
  name = name;
  status = status_of p.result;
  message = p.result;
  last_checked = p.stamped;
  duration = since p.ended p.started;
}

-- The entry of the cache is used while it is younger than the ttl.
unfoldable pub is_fresh : ℤ → Probe → Check → Bool
is_fresh ttl p check = ltb_ℤ (since p.seen check.last_checked) ttl

renew : String → Probe → Dict Check → Check × Dict Check
renew name p cache = let check = run_check name p in (check, insert name check cache)

-- One round of the loop of `Health`.
unfoldable pub check_one : ℤ → String → Probe → Dict Check → Check × Dict Check
unfolding renew
check_one ttl name p cache = elim (lookup name cache) [
  | none ↦ renew name p cache
  | some check ↦ if is_fresh ttl p check then (check, cache) else renew name p cache
]

module _ (probe : String → Probe) where
  unfoldable pub check_all : ℤ → Dict ℕ → Status → Dict Check → Status × List Check × Dict Check
  check_all ttl [] overall cache = (overall, [], cache)
  check_all ttl ((name, f) ∷ checks) overall cache =
      let (check, cache') = check_one ttl name (probe name) cache in
      let (overall', reports, cache'') =
        check_all ttl checks (if is_healthy check.status then overall else degraded) cache' in
      (overall', check ∷ reports, cache'')

  unfoldable pub health : Checker → Status × List Check × Checker
  health c =
      let (overall, reports, cache) = check_all c.ttl c.checks healthy c.cache in
      (overall, reports, record c { cache = cache })

-- The status codes of `HTTPHandler` and `ReadinessHandler`.
unfoldable pub http_code : Status → ℕ
http_code unhealthy = 503
http_code degraded = 200
http_code healthy = 200

unfoldable pub readiness_code : Status → ℕ
readiness_code healthy = 200
readiness_code _ = 503
