-- ===== src/Scheduler/Heartbeat.antt =====
-- backend/engine/scheduler/heartbeat.py. A check function is known by what it answers at a time: a
-- truth value with a message for a tuple, or the exception's text. Response times are not modelled.
pub mod Health
use utos.Prelude.{
  ℕ, suc, ◌+◌, ◌==◌, Bool, true, false, not, Option, none, some, List, [], ◌∷◌, Result, ok, err,
  is_some, if◌then◌else◌, filter,
}
use utos.Prelude.Dict.{Dict, number_key, lookup, insert, erase, values, keys}

abbrev pub Check : Type 0
Check = ℕ → Result ℕ (Bool × Option ℕ)

pub record HealthCheckResult : Type 0 where
  pub component : ℕ
  pub healthy : Bool
  pub last_check : ℕ
  pub error : Option ℕ

pub record HeartbeatMonitor : Type 0 where
  pub checks : Dict ℕ Check
  pub results : Dict ℕ HealthCheckResult
  pub checks_registered : ℕ
  pub checks_run : ℕ
  pub checks_healthy : ℕ
  pub checks_unhealthy : ℕ

-- the text "Component not registered"
abbrev pub not_registered : ℕ
not_registered = 1

unfoldable pub register : ℕ → Check → HeartbeatMonitor → HeartbeatMonitor
register component check_fn m = record m {
  checks = insert component check_fn m.checks;
  checks_registered = m.checks_registered + 1;
}

unfoldable pub unregister : ℕ → HeartbeatMonitor → Bool × HeartbeatMonitor
unregister component m =
    if is_some (lookup component m.checks)
    then (true, record m { checks = erase component m.checks; results = erase component m.results })
    else (false, m)

-- the result of a check that was run
abbrev pub health : ℕ → ℕ → Result ℕ (Bool × Option ℕ) → HealthCheckResult
health component now (ok (healthy, error)) = record {
  component = component;
  healthy = healthy;
  last_check = now;
  error = error;
}
health component now (err message) = record {
  component = component;
  healthy = false;
  last_check = now;
  error = some message;
}

-- the result and the counters are stored
abbrev pub keep : HealthCheckResult → HeartbeatMonitor → HealthCheckResult × HeartbeatMonitor
keep r m = (
  r,
  record m {
    results = insert r.component r m.results;
    checks_run = m.checks_run + 1;
    checks_healthy = m.checks_healthy + (if r.healthy then 1 else 0);
    checks_unhealthy = m.checks_unhealthy + (if r.healthy then 0 else 1);
  },
)

check_found : Option Check → ℕ → ℕ → HeartbeatMonitor → HealthCheckResult × HeartbeatMonitor
check_found none component now m = (
  record { component = component; healthy = false; last_check = now; error = some not_registered },
  m,
)
check_found (some check_fn) component now m = keep (health component now (check_fn now)) m

unfoldable pub check : ℕ → ℕ → HeartbeatMonitor → HealthCheckResult × HeartbeatMonitor
unfolding check_found
check component now m = check_found (lookup component m.checks) component now m

unfoldable pub check_each :
    List ℕ → ℕ → HeartbeatMonitor → List HealthCheckResult × HeartbeatMonitor
check_each [] now m = ([], m)
check_each (component ∷ rest) now m =
    let (r, m') = check component now m in let (rs, m'') = check_each rest now m' in (r ∷ rs, m'')

unfoldable pub check_all : ℕ → HeartbeatMonitor → List HealthCheckResult × HeartbeatMonitor
check_all now m = check_each (keys m.checks) now m

unfoldable pub get_unhealthy : HeartbeatMonitor → List HealthCheckResult
get_unhealthy m = filter (λ r. not r.healthy) (values m.results)

unfoldable pub get_healthy : HeartbeatMonitor → List HealthCheckResult
get_healthy m = filter (λ r. r.healthy) (values m.results)

unfoldable pub get_result : ℕ → HeartbeatMonitor → Option HealthCheckResult
get_result component m = lookup component m.results
