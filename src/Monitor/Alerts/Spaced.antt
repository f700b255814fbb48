-- ===== src/Monitor/Alerts/Spaced.antt =====
-- The cooldown of the alert rules.
use odoo_job_worker.Base.{
  ℕ, ◌+◌, ◌*◌, ◌≤◌, ◌≡◌, Bool, true, false, Option, none, some, List, [], ◌∷◌, All, if◌then◌else◌,
  Bool-cases, inl, inr, arith,
}
use odoo_job_worker.Job.{Job}
use odoo_job_worker.Monitor.Floats.{Floats}
use odoo_job_worker.Monitor.Alerts.{
  Rule, Watched, Outcome, evaluate_metric, check_threshold, cools_down, evaluate_rule,
  evaluate_all_rules, run_all,
}

-- Times, newest first, that are apart by a gap at least.
abbrev pub Spaced : ℕ → List ℕ → Type 0
Spaced gap [] = Unit
Spaced gap (t ∷ []) = Unit
Spaced gap (t ∷ u ∷ times) = (u + gap ≤ t) × Spaced gap (u ∷ times)

-- The newest of them is not after the last trigger.
abbrev Covers : Option ℕ → List ℕ → Type 0
Covers last [] = Unit
Covers none (t ∷ times) = ⊥
Covers (some l) (t ∷ times) = t ≤ l

abbrev pub gap_of : {D : Type 0} → Rule D → ℕ
gap_of rule = rule.cooldown_minutes * 60

pub record IsPaced {D : Type 0} (w : Watched D) : Type 0 where
  pub spaced : Spaced (gap_of w.rule) w.posted_at
  pub covers : Covers w.rule.last_triggered_at w.posted_at

post-Spaced :
    (now minutes : ℕ) (last : Option ℕ) (times : List ℕ)
    → cools_down now minutes last ≡ false
    → Covers last times
    → Spaced (minutes * 60) times
    → Spaced (minutes * 60) (now ∷ times)
post-Spaced now minutes last [] warm c s = tt
post-Spaced now minutes none (t ∷ times) warm c s = absurd c
post-Spaced now minutes (some l) (t ∷ times) warm c s = (ground arith, s)

kept-Covers :
    (now minutes : ℕ) (last : Option ℕ) (times : List ℕ)
    → cools_down now minutes last ≡ false
    → Covers last times
    → Covers (some now) times
kept-Covers now minutes last [] warm c = tt
kept-Covers now minutes none (t ∷ times) warm c = absurd c
kept-Covers now minutes (some l) (t ∷ times) warm c = ground arith

module _ {D : Type 0} (floats : Floats D) where
  triggered-IsPaced :
      (now : ℕ) (value : D) (posts : Bool) (w : Watched D)
      → cools_down now w.rule.cooldown_minutes w.rule.last_triggered_at ≡ false
      → IsPaced w
      → IsPaced (record {
        rule = record w.rule { last_value = value; last_triggered_at = some now };
        posted_at = if posts then now ∷ w.posted_at else w.posted_at;
      })
  triggered-IsPaced now value true w warm h = record {
    spaced =
        post-Spaced now w.rule.cooldown_minutes w.rule.last_triggered_at w.posted_at warm h.covers
          h.spaced;
    covers = omega arith;
  }
  triggered-IsPaced now value false w warm h = record {
    spaced = h.spaced;
    covers =
        kept-Covers now w.rule.cooldown_minutes w.rule.last_triggered_at w.posted_at warm h.covers;
  }

  evaluate_rule-IsPaced :
      (now : ℕ) (jobs : List Job) (o : Outcome) (w : Watched D)
      → IsPaced w
      → IsPaced (evaluate_rule floats now jobs o w)
  unfolding evaluate_rule
  evaluate_rule-IsPaced now jobs o w h =
      let value = evaluate_metric floats now jobs w.rule in
      elim (Bool-cases o.answers) [
        | inr fails ↦ rw fails h
        | inl answers ↦
            elim (Bool-cases (check_threshold floats w.rule.operator value w.rule.threshold)) [
              | inr calm ↦ rw (answers, calm) (record { spaced = h.spaced; covers = h.covers })
              | inl breached ↦
                  elim (Bool-cases
                    (cools_down now w.rule.cooldown_minutes w.rule.last_triggered_at)) [
                      | inl cools ↦
                          rw (answers, breached, cools)
                            (record { spaced = h.spaced; covers = h.covers })
                      | inr warm ↦
                          rw (answers, breached, warm)
                            (triggered-IsPaced now value o.posts w warm h)
                    ]
            ]
      ]

  if-IsPaced : (b : Bool) (v w : Watched D) → IsPaced v → IsPaced w → IsPaced (if b then v else w)
  if-IsPaced true v w hv hw = hv
  if-IsPaced false v w hv hw = hw

  evaluate_all_rules-IsPaced :
      (now : ℕ) (jobs : List Job) (outcome : ℕ → Outcome) (ws : List (Watched D))
      → All IsPaced ws
      → All IsPaced (evaluate_all_rules floats now jobs outcome ws)
  unfolding evaluate_all_rules
  evaluate_all_rules-IsPaced now jobs outcome [] h = tt
  evaluate_all_rules-IsPaced now jobs outcome (w ∷ ws) h = (
    if-IsPaced w.rule.active (evaluate_rule floats now jobs (outcome w.rule.id) w) w
        (evaluate_rule-IsPaced now jobs (outcome w.rule.id) w h.0) h.0,
    evaluate_all_rules-IsPaced now jobs outcome ws h.1,
  )

  -- If what the rules have posted so far is spaced by their cooldowns and not after their last triggers,
  -- it is so after any number of runs of the scheduled action, whatever the tables, the errors and the
  -- clock: two notices of a rule are never closer than its cooldown.
  pub run_all-IsPaced :
      (runs : List (ℕ × List Job × (ℕ → Outcome))) (ws : List (Watched D))
      → All IsPaced ws
      → All IsPaced (run_all floats runs ws)
  unfolding run_all
  run_all-IsPaced [] ws h = h
  run_all-IsPaced ((now, jobs, outcome) ∷ runs) ws h =
      run_all-IsPaced runs (evaluate_all_rules floats now jobs outcome ws)
        (evaluate_all_rules-IsPaced now jobs outcome ws h)
