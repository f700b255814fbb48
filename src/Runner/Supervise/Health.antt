-- ===== src/Runner/Supervise/Health.antt =====
-- A database that stays unusable, as the healthcheck sees it.
use odoo_job_worker.Base.{
  ℕ, zero, suc, ◌+◌, ◌<◌, ◌≤◌, ◌≡◌, ◌≢◌, refl, ◌∙◌, Bool, true, false, not, ◌&&◌, ◌||◌, Option,
  none, some, List, [], ◌∷◌, All, length, leb, ◌==◌, if◌then◌else◌, Bool-cases, inl, inr, map,
  arith, leb→le,
}
use odoo_job_worker.Runner.{
  Settings, Database, Found, recent_failure_count, record_failure, expire_quarantine,
  start_worker_thread, stop_worker_thread, discover, check_thread_health, is_degraded,
  fleet_is_degraded, since_long, gate_overdue, recent_failures,
}
use odoo_job_worker.Runner.Supervise.{
  update_heartbeat, is_fresh, Pass, Supervisor, discover_each, discovery_due, look_after, supervise,
}

-- The database at a place of the list retries its registry load since a time.
abbrev pub RetriesSince : ℕ → ℕ → List Database → Type 0
RetriesSince i first [] = ⊥
RetriesSince zero first (d ∷ databases) = d.retrying_since ≡ some first
RetriesSince (suc i) first (d ∷ databases) = RetriesSince i first databases

record_failure-retries :
    (s : Settings) (now : ℕ) (d : Database)
    → (record_failure s now d).retrying_since ≡ d.retrying_since
unfolding record_failure recent_failure_count
record_failure-retries s now d = ground arith

check_thread_health-retries :
    (s : Settings) (now : ℕ) (d : Database)
    → (check_thread_health s now d).retrying_since ≡ d.retrying_since
unfolding check_thread_health start_worker_thread record_failure recent_failure_count
check_thread_health-retries s now d = ground arith

discover-retries :
    (s : Settings) (now : ℕ) (f : Found) (d : Database)
    → (discover s now f d).retrying_since ≡ d.retrying_since
unfolding discover expire_quarantine start_worker_thread stop_worker_thread recent_failure_count
discover-retries s now f d = ground arith

discover_each-RetriesSince :
    (s : Settings) (now i first : ℕ) (found : List Found) (ds : List Database)
    → RetriesSince i first ds
    → RetriesSince i first (discover_each s now found ds)
unfolding discover_each
discover_each-RetriesSince s now i first [] ds h = h
discover_each-RetriesSince s now i first (f ∷ found) [] h = h
discover_each-RetriesSince s now zero first (f ∷ found) (d ∷ ds) h = discover-retries s now f d ∙ h
discover_each-RetriesSince s now (suc i) first (f ∷ found) (d ∷ ds) h =
    discover_each-RetriesSince s now i first found ds h

health-RetriesSince :
    (s : Settings) (now i first : ℕ) (ds : List Database)
    → RetriesSince i first ds
    → RetriesSince i first (map (check_thread_health s now) ds)
health-RetriesSince s now i first [] h = h
health-RetriesSince s now zero first (d ∷ ds) h = check_thread_health-retries s now d ∙ h
health-RetriesSince s now (suc i) first (d ∷ ds) h = health-RetriesSince s now i first ds h

some_true : (a b c e : Bool) → a || (b || (c || (true && (true || e)))) ≡ true
some_true a b c e = ground arith

retrying_is_degraded :
    (s : Settings) (now first : ℕ) (d : Database)
    → d.retrying_since ≡ some first
    → s.database_unhealthy_after_seconds ≢ 0
    → first + s.database_unhealthy_after_seconds ≤ now
    → is_degraded s now d ≡ true
unfolding is_degraded
retrying_is_degraded s now first d since on late =
    let past : leb (first + s.database_unhealthy_after_seconds) now ≡ true = ground arith in
    let set : not (s.database_unhealthy_after_seconds == 0) ≡ true = ground arith in
    rw (since, past, set)
      (some_true d.quarantined (gate_overdue now d.gate)
        (leb s.maximum_consecutive_failures (length (recent_failures s now d.failures)))
        (since_long now s.database_unhealthy_after_seconds d.recovering_since))

or_true : (b : Bool) → b || true ≡ true
or_true b = ground arith

retrying_degrades_fleet :
    (s : Settings) (now i first : ℕ) (ds : List Database)
    → RetriesSince i first ds
    → s.database_unhealthy_after_seconds ≢ 0
    → first + s.database_unhealthy_after_seconds ≤ now
    → fleet_is_degraded s now ds ≡ true
unfolding fleet_is_degraded
retrying_degrades_fleet s now i first [] h on late = absurd h
retrying_degrades_fleet s now zero first (d ∷ ds) h on late =
    rw (retrying_is_degraded s now first d h on late) refl
retrying_degrades_fleet s now (suc i) first (d ∷ ds) h on late =
    rw (retrying_degrades_fleet s now i first ds h on late) (or_true (is_degraded s now d))

-- The file was last written before a time.
abbrev pub WrittenBefore : ℕ → Option ℕ → Type 0
WrittenBefore limit none = Unit
WrittenBefore limit (some t) = t < limit

module _ (s : Settings) (interval i first : ℕ) (on : s.database_unhealthy_after_seconds ≢ 0) where
  limit : ℕ
  limit = first + s.database_unhealthy_after_seconds

  beat-WrittenBefore :
      (now : ℕ) (writable : Bool) (ds : List Database) (file : Option ℕ)
      → RetriesSince i first ds
      → WrittenBefore limit file
      → WrittenBefore limit (update_heartbeat s now writable ds file)
  unfolding update_heartbeat limit
  beat-WrittenBefore now writable ds file h old = elim (Bool-cases (leb limit now)) [
    | inl late ↦ rw (retrying_degrades_fleet s now i first ds h on (leb→le limit now late)) old
    | inr early ↦ written (fleet_is_degraded s now ds) writable (ground arith)
  ]
    where
      written :
          (degraded w : Bool)
          → now < limit
          → WrittenBefore limit (if degraded then file else if w then some now else file)
      written true w h = old
      written false true h = h
      written false false h = old

  look_after-RetriesSince :
      (p : Pass) (v : Supervisor)
      → RetriesSince i first (p.meanwhile v.databases)
      → RetriesSince i first (look_after s interval p v).databases
  unfolding look_after
  look_after-RetriesSince p v h =
      elim (Bool-cases (discovery_due interval p.at_time v.last_discovery)) [
        | inl due ↦ rw due (
            health-RetriesSince s p.at_time i first
              (discover_each s p.at_time p.found (p.meanwhile v.databases))
              (discover_each-RetriesSince s p.at_time i first p.found (p.meanwhile v.databases) h))
        | inr not_due ↦
            rw not_due (health-RetriesSince s p.at_time i first (p.meanwhile v.databases) h)
      ]

  look_after-file : (p : Pass) (v : Supervisor) → (look_after s interval p v).file ≡ v.file
  unfolding look_after
  look_after-file p v = ground arith

  supervise-WrittenBefore :
      (passes : List Pass) (v : Supervisor)
      → All
          (λ p.
            (ds : List Database) → RetriesSince i first ds → RetriesSince i first (p.meanwhile ds))
          passes
      → RetriesSince i first v.databases
      → WrittenBefore limit v.file
      → WrittenBefore limit (supervise s interval passes v).file
  unfolding supervise
  supervise-WrittenBefore [] v keeps h old = old
  supervise-WrittenBefore (p ∷ passes) v keeps h old =
      let seen = look_after s interval p v in
      let still = look_after-RetriesSince p v (keeps.0 v.databases h) in
      let same : WrittenBefore limit seen.file = rw (look_after-file p v) old in
      let file = update_heartbeat s p.at_time p.writable seen.databases seen.file in
      elim (Bool-cases p.stopping) [
        | inl stop ↦ rw stop old
        | inr goes ↦ elim (Bool-cases p.stalled) [
          | inl exits ↦ rw (goes, exits) same
          | inr moves ↦
              rw (goes, moves)
                (supervise-WrittenBefore passes (record seen { file = file }) keeps.1 still
                  (beat-WrittenBefore p.at_time p.writable seen.databases seen.file still same))
        ]
      ]

-- If the registry load of a database is retried since `first` and its thread, whatever it does
-- besides, gets no further, the unhealthy threshold is not 0, and the heartbeat file was not written
-- after the threshold is met, then from `first`, the threshold and `max_age` together on the healthcheck fails,
-- whatever passes the supervisor made, whatever it found of other databases, and however often.
pub failing_load_fails_healthcheck :
    (s : Settings) (interval i first max_age now : ℕ) (passes : List Pass) (v : Supervisor)
    → s.database_unhealthy_after_seconds ≢ 0
    → All
        (λ p.
          (ds : List Database) → RetriesSince i first ds → RetriesSince i first (p.meanwhile ds))
        passes
    → RetriesSince i first v.databases
    → WrittenBefore (first + s.database_unhealthy_after_seconds) v.file
    → first + s.database_unhealthy_after_seconds + max_age ≤ now
    → is_fresh max_age now (supervise s interval passes v).file ≡ false
unfolding limit is_fresh
failing_load_fails_healthcheck s interval i first max_age now passes v on keeps h old late =
    stale (supervise s interval passes v).file
      (supervise-WrittenBefore s interval i first on passes v keeps h old)
  where
    stale :
        (file : Option ℕ)
        → WrittenBefore (first + s.database_unhealthy_after_seconds) file
        → is_fresh max_age now file ≡ false
    stale none h = refl
    stale (some t) h = ground arith
