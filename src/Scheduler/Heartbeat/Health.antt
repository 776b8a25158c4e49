-- ===== src/Scheduler/Heartbeat/Health.antt =====
-- The counters of the health checks, and whose results are kept.
use utos.Prelude.{
  ℕ, ◌+◌, ◌≡◌, refl, Bool, Option, none, some, List, [], ◌∷◌, Result, ok, err, arith, is_some,
  Bool-cases, inl, inr,
}
use utos.Prelude.Dict.{number_key, lookup, lookup-insert, lookup-erase}
use utos.Scheduler.Heartbeat.{
  Check, HealthCheckResult, HeartbeatMonitor, register, unregister, health, keep, check,
  check_found, check_each, check_all,
}

-- Every check that was run counts as healthy or unhealthy, and results are kept only for components
-- that are registered.
pub record IsSound (m : HeartbeatMonitor) : Type 0 where
  pub counted : m.checks_run ≡ m.checks_healthy + m.checks_unhealthy
  pub known : (c : ℕ) → lookup c m.checks ≡ none → lookup c m.results ≡ none

pub register-IsSound :
    (c : ℕ) (f : Check) (m : HeartbeatMonitor) → IsSound m → IsSound (register c f m)
unfolding register
register-IsSound c f m h = record {
  counted = h.counted;
  known = λ d absent. h.known d (ground (arith, lookup-insert c d f m.checks));
}

pub unregister-IsSound : (c : ℕ) (m : HeartbeatMonitor) → IsSound m → IsSound (unregister c m).1
unfolding unregister
unregister-IsSound c m h = elim (Bool-cases (is_some (lookup c m.checks))) [
  | inr absent ↦ rw absent h
  | inl there ↦ rw there (record {
    counted = h.counted;
    known = λ d absent.
        ground (arith, lookup-erase c d m.checks, lookup-erase c d m.results, h.known d);
  })
]

keep-IsSound :
    (f : Check) (r : HealthCheckResult) (m : HeartbeatMonitor)
    → lookup r.component m.checks ≡ some f
    → IsSound m
    → IsSound (keep r m).1
keep-IsSound f r m e h = record {
  counted = ground (arith, h.counted);
  known = λ d absent. ground (arith, lookup-insert r.component d r m.results, h.known d);
}

health-component :
    (c now : ℕ) (answer : Result ℕ (Bool × Option ℕ)) → (health c now answer).component ≡ c
health-component c now (ok (b, e)) = refl
health-component c now (err x) = refl

found-IsSound :
    (found : Option Check) (c now : ℕ) (m : HeartbeatMonitor)
    → lookup c m.checks ≡ found
    → IsSound m
    → IsSound (check_found found c now m).1
unfolding check_found
found-IsSound none c now m e h = h
found-IsSound (some f) c now m e h =
    keep-IsSound f (health c now (f now)) m (rw health-component e) h

-- A check keeps the counters balanced, also when the component is unknown or its check raises.
pub check-IsSound : (c now : ℕ) (m : HeartbeatMonitor) → IsSound m → IsSound (check c now m).1
unfolding check
check-IsSound c now m h = found-IsSound (lookup c m.checks) c now m refl h

check_each-IsSound :
    (cs : List ℕ) (now : ℕ) (m : HeartbeatMonitor) → IsSound m → IsSound (check_each cs now m).1
unfolding check_each
check_each-IsSound [] now m h = h
check_each-IsSound (c ∷ cs) now m h =
    check_each-IsSound cs now (check c now m).1 (check-IsSound c now m h)

-- A round over all components keeps the counters and the results sound.
pub check_all-IsSound : (now : ℕ) (m : HeartbeatMonitor) → IsSound m → IsSound (check_all now m).1
unfolding check_all
check_all-IsSound now m h = check_each-IsSound _ now m h
