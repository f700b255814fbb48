-- ===== src/Runner/Startup/Since.antt =====
-- The time since which a registry load is retried.
use odoo_job_worker.Base.{ℕ, ◌≡◌, ◌≢◌, refl, none, some, List, [], ◌∷◌, Bool-cases, inl, inr}
use odoo_job_worker.Runner.Startup.{
  Waited, opened, told_to_stop, probe_raises, waits, wait_for_upgrade_gate, Load, loads, load_fails,
  load_breaks, Attempt, Starting, Started, ready, gives_up, crashes, goes_on, Pacing, load_failed,
  try_load, go_round, load_registry,
}

-- A thread that is not ready has retried since `first`.
abbrev IsSince : ℕ → Starting × Started → Type 0
IsSince first (s, ready) = Unit
IsSince first (s, gives_up) = s.retrying_since ≡ some first
IsSince first (s, crashes) = s.retrying_since ≡ some first
IsSince first (s, goes_on) = s.retrying_since ≡ some first

load_failed-since :
    (p : Pacing) (now first : ℕ) (s : Starting)
    → s.retrying_since ≡ some first
    → (load_failed p now s).retrying_since ≡ some first
unfolding load_failed
load_failed-since p now first s e = rw e refl

try_load-IsSince :
    (p : Pacing) (a : Attempt) (w : Waited) (first : ℕ) (s : Starting)
    → s.retrying_since ≡ some first
    → IsSince first (try_load p a w s)
unfolding try_load
try_load-IsSince p a told_to_stop first s e = e
try_load-IsSince p a waits first s e = e
try_load-IsSince p a probe_raises first s e = load_failed-since p a.failed_at first s e
try_load-IsSince p a (opened now) first s e = loaded a.load
  where
    begun : Starting
    begun = record s { loading_at = now ∷ s.loading_at }

    loaded :
        (l : Load)
        → IsSince first (elim l as (λ _. Starting × Started) [
          | loads ↦ (record begun { retrying_since = none }, ready)
          | load_fails ↦ (load_failed p a.failed_at begun, goes_on)
          | load_breaks ↦ (begun, crashes)
        ])
    loaded loads = tt
    loaded load_fails = load_failed-since p a.failed_at first begun e
    loaded load_breaks = e

go_round-IsSince :
    (w : Waited) (first : ℕ) (tried rest : Starting × Started)
    → IsSince first tried
    → (tried.0.retrying_since ≡ some first → IsSince first rest)
    → IsSince first (go_round w tried rest)
unfolding go_round
go_round-IsSince waits first tried rest h k = h
go_round-IsSince told_to_stop first (s, goes_on) rest h k = k h
go_round-IsSince probe_raises first (s, goes_on) rest h k = k h
go_round-IsSince (opened now) first (s, goes_on) rest h k = k h
go_round-IsSince w first (s, ready) rest h k = h
go_round-IsSince w first (s, gives_up) rest h k = h
go_round-IsSince w first (s, crashes) rest h k = h

load_registry-IsSince :
    (p : Pacing) (attempts : List Attempt) (first : ℕ) (s : Starting)
    → s.retrying_since ≡ some first
    → IsSince first (load_registry p attempts s)
unfolding load_registry
load_registry-IsSince p [] first s e = e
load_registry-IsSince p (a ∷ attempts) first s e = elim (Bool-cases a.stopping) [
  | inl stop ↦ rw stop e
  | inr on ↦
      let waited = wait_for_upgrade_gate a.polls s.gate in
      let asked = record s { gate = waited.0 } in
      let tried = try_load p a waited.1 asked in
      rw on (
        go_round-IsSince waited.1 first tried (load_registry p attempts tried.0)
          (try_load-IsSince p a waited.1 first asked e)
          (λ h. load_registry-IsSince p attempts first tried.0 h))
]

-- The time of the first failure of a registry load is what `_registry_load_retry_since` holds until
-- the registry is loaded, whatever the attempts after it meet; in particular, where the thread gives up
-- or is still at it.
pub load_registry_since :
    (p : Pacing) (attempts : List Attempt) (first : ℕ) (s : Starting)
    → s.retrying_since ≡ none
    → let result = load_registry p attempts (load_failed p first s) in
      result.1 ≢ ready → result.0.retrying_since ≡ some first
unfolding load_failed
load_registry_since p attempts first s healthy not_ready =
    unready_since (load_registry p attempts (load_failed p first s))
      (load_registry-IsSince p attempts first (load_failed p first s) (rw healthy refl)) not_ready
  where
    unready_since :
        (r : Starting × Started) → IsSince first r → r.1 ≢ ready → r.0.retrying_since ≡ some first
    unready_since (s, ready) h n = absurd (n refl)
    unready_since (s, gives_up) h n = h
    unready_since (s, crashes) h n = h
    unready_since (s, goes_on) h n = h
