-- ===== src/Runner/Quarantine.antt =====
-- The start and the end of a quarantine.
use odoo_job_worker.Base.{
  ℕ, suc, ◌+◌, ◌≡◌, ◌↔◌, ◌⊎◌, inl, inr, ◌≤◌, ◌<◌, refl, Bool, true, false, ◌||◌, Option, none, some,
  List, [], ◌∷◌, ◌++◌, All, leb, keep_if, length, Bool-cases, arith,
}
use odoo_job_worker.Runner.{
  Thread, Settings, Database, recent_failures, recent_failure_count, record_failure,
  expire_quarantine, new_thread, start_worker_thread, check_thread_health,
}

keep_if-length : (p : ℕ → Bool) (xs : List ℕ) → length (keep_if p xs) ≤ length xs
keep_if-length p [] = omega arith
keep_if-length p (x ∷ xs) = ground (arith, keep_if-length p xs)

keep_if-none : (p : ℕ → Bool) (xs : List ℕ) → All (λ x. p x ≡ false) xs → keep_if p xs ≡ []
keep_if-none p [] h = refl
keep_if-none p (x ∷ xs) h = rw (h.0, keep_if-none p xs h.1)

keep_if-snoc :
    (p : ℕ → Bool) (xs : List ℕ) (y : ℕ)
    → p y ≡ true
    → length (keep_if p (xs ++ y ∷ [])) ≡ suc (length (keep_if p xs))
keep_if-snoc p [] y h = rw h
keep_if-snoc p (x ∷ xs) y h = elim (Bool-cases (p x)) [
  | inl hit ↦ rw hit (omega (arith, keep_if-snoc p xs y h))
  | inr miss ↦ rw miss (keep_if-snoc p xs y h)
]

now_is_recent : (now window : ℕ) → leb now (now + window) ≡ true
now_is_recent now window = ground arith

-- A failure leaves a database quarantined exactly if it was before, or if this failure and those
-- within the window before it reach the limit.
pub record_failure_quarantines :
    (s : Settings) (now : ℕ) (d : Database)
    → ((record_failure s now d).quarantined ≡ true) ↔ (
        (d.quarantined ≡ true)
        ⊎ s.maximum_consecutive_failures ≤ suc (length (recent_failures s now d.failures)))
unfolding record_failure recent_failure_count
record_failure_quarantines s now d =
    rw
      (keep_if-snoc (λ t. leb now (t + s.failure_window_seconds)) d.failures now
        (now_is_recent now s.failure_window_seconds))
      ((λ e. ground arith), (λ e. ground arith))

-- A quarantine ends: if the dead thread of a quarantined database is counted and all its failures
-- have left the window, then the next discovery pass releases it and the health check after that
-- starts a new thread, records no failure and does not quarantine it again.
pub quarantine_ends :
    (s : Settings) (now : ℕ) (d : Database)
    → d.quarantined ≡ true
    → d.thread ≡ some (record { alive = false; counted = true })
    → All (λ t. leb now (t + s.failure_window_seconds) ≡ false) d.failures
    → 0 < s.maximum_consecutive_failures
    → check_thread_health s now (expire_quarantine s now d) ≡ record d {
      thread = some new_thread;
      failures = [];
      quarantined = false;
      recovering_since = none;
    }
unfolding check_thread_health expire_quarantine recent_failure_count start_worker_thread
quarantine_ends s now d q t old pos =
    let room : leb s.maximum_consecutive_failures 0 ≡ false = ground arith in
    rw (q, keep_if-none (λ t. leb now (t + s.failure_window_seconds)) d.failures old, room, t)

-- The thread of a database is not a death that is still to be counted.
abbrev pub is_settled : Option Thread → Bool
is_settled none = true
is_settled (some t) = t.alive || t.counted

-- The supervisor's passes.
pub data Pass : Type 0 where
  health : (now : ℕ) → Pass
  expiry : (now : ℕ) → Pass

unfoldable pub supervise : Settings → List Pass → Database → Database
supervise s [] d = d
supervise s (health now ∷ passes) d = supervise s passes (check_thread_health s now d)
supervise s (expiry now ∷ passes) d = supervise s passes (expire_quarantine s now d)

health_adds_none :
    (s : Settings) (now : ℕ) (d : Database)
    → is_settled d.thread ≡ true
    → (is_settled (check_thread_health s now d).thread ≡ true)
      × (length (check_thread_health s now d).failures ≤ length d.failures)
unfolding check_thread_health start_worker_thread
health_adds_none s now d h = ground arith

expiry_adds_none :
    (s : Settings) (now : ℕ) (d : Database)
    → is_settled d.thread ≡ true
    → (is_settled (expire_quarantine s now d).thread ≡ true)
      × (length (expire_quarantine s now d).failures ≤ length d.failures)
unfolding expire_quarantine recent_failure_count
expiry_adds_none s now d h =
    ground (arith, keep_if-length (λ t. leb now (t + s.failure_window_seconds)) d.failures)

-- A death is counted once: where the thread runs, is gone, or is dead and counted, no number of
-- health checks and expiry passes, in whatever order, adds a failure.
pub death_counted_once :
    (s : Settings) (passes : List Pass) (d : Database)
    → is_settled d.thread ≡ true
    → length (supervise s passes d).failures ≤ length d.failures
unfolding supervise
death_counted_once s [] d h = omega arith
death_counted_once s (health now ∷ passes) d h =
    let (settled, fewer) = health_adds_none s now d h in
    omega (arith, fewer, death_counted_once s passes (check_thread_health s now d) settled)
death_counted_once s (expiry now ∷ passes) d h =
    let (settled, fewer) = expiry_adds_none s now d h in
    omega (arith, fewer, death_counted_once s passes (expire_quarantine s now d) settled)
