-- ===== src/Examples/Health.antt =====
-- pkg/health/health.go at concrete inputs: one check with a fresh entry in the cache, one that fails.
use mproxy.Prelude.{◌≡◌, refl, String, [], ◌∷◌, none, some}
use mproxy.Prelude.Int.{pos, since}
use mproxy.Prelude.Maps.{lookup, insert}
use mproxy.Errors.{eof}
use mproxy.Health.{
  healthy, degraded, unhealthy, Check, Checker, Probe, health, check_all, check_one, run_check,
  is_fresh, readiness_code, http_code,
}
use mproxy.Health.Reports.{IsNamed, Reported, all_healthy, health-Reported}

abbrev cached : Check
cached = record {
  name = "db";
  status = healthy;
  message = none;
  last_checked = 90;
  duration = pos 1;
}

abbrev checker : Checker
checker = record {
  checks = ("db", 0) ∷ ("broker", 1) ∷ [];
  cache = ("db", cached) ∷ [];
  ttl = pos 20;
}

-- The broker does not answer; the database would not either.
abbrev probe : String → Probe
probe name = record { seen = 100; started = 101; ended = 103; stamped = 103; result = some eof }

abbrev failed_check : Check
failed_check = record {
  name = "broker";
  status = unhealthy;
  message = some eof;
  last_checked = 103;
  duration = pos 2;
}

reports : (health probe checker).1 ≡ cached ∷ failed_check ∷ []
unfolding health check_all check_one lookup insert is_fresh run_check since
reports = refl

health-Reported_example :
    Reported probe (pos 20) checker.cache checker.checks (health probe checker).1
    × IsNamed (health probe checker).2.cache
    × ((health probe checker).0 ≡ degraded)
    × (readiness_code (health probe checker).0 ≡ 503)
    × (http_code (health probe checker).0 ≡ 200)
unfolding health check_all check_one lookup insert is_fresh run_check since all_healthy
health-Reported_example = health-Reported probe checker (refl, tt)
