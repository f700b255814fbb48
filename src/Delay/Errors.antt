-- ===== src/Delay/Errors.antt =====
-- Groups and chains as members of a group.
use odoo_job_worker.Base.{
  ℕ, ◌≡◌, refl, Bool, true, false, Option, none, some, Bool-cases, inl, inr, if◌then◌else◌,
}
use odoo_job_worker.Queue.Enqueue.{Surroundings}
use odoo_job_worker.Delay.{
  Delayable, Delayables, single, group, chain, nil, cons, Wiring, Scheduling, Delayed, ok, err,
  ◌>>=◌, own_uuid, member_id, delay, delay_all, delay_members, delay_links,
}
use odoo_job_worker.Delay.Each.{OnOk}

abbrev pub is_err {ℓ} : {A : Type ℓ} → Delayed A → Bool
is_err (ok a) = false
is_err (err e) = true

abbrev pub is_single : Delayable → Bool
is_single (single call nexts errors) = true
is_single (group members nexts errors) = false
is_single (chain links nexts errors) = false

abbrev pub are_single : Delayables → Bool
are_single nil = true
are_single (cons d ds) = if is_single d then are_single ds else false

bind-err {ℓ κ} :
    {A : Type ℓ} {B : Type κ} (P : A → Type 0) (m : Delayed A) (f : A → Delayed B)
    → OnOk P m
    → ((a : A) → P a → is_err (f a) ≡ true)
    → is_err (m >>= f) ≡ true
bind-err P (ok a) f p h = h a p
bind-err P (err e) f p h = refl

bind-fails {ℓ κ} :
    {A : Type ℓ} {B : Type κ} (m : Delayed A) (f : A → Delayed B)
    → is_err m ≡ true
    → is_err (m >>= f) ≡ true
bind-fails (ok a) f h = cc
bind-fails (err e) f h = refl

-- What holds whatever the first step gave.
after_anything {ℓ κ} :
    {A : Type ℓ} {B : Type κ} (Q : B → Type 0) (m : Delayed A) (f : A → Delayed B)
    → ((a : A) → OnOk Q (f a))
    → OnOk Q (m >>= f)
after_anything Q (ok a) f h = h a
after_anything Q (err e) f h = tt

fails_after_anything {ℓ κ} :
    {A : Type ℓ} {B : Type κ} (m : Delayed A) (f : A → Delayed B)
    → ((a : A) → is_err (f a) ≡ true)
    → is_err (m >>= f) ≡ true
fails_after_anything (ok a) f h = h a
fails_after_anything (err e) f h = refl

member_id-none : (a : Scheduling × Option ℕ) → a.1 ≡ none → is_err (member_id a) ≡ true
member_id-none (s, none) e = refl
member_id-none (s, some job) e = cc

abbrev HasNoJob : Scheduling × Option ℕ → Type 0
HasNoJob a = a.1 ≡ none

module _ (now : ℕ) (env : Surroundings) (draw : ℕ → ℕ) where
  tail-HasNoJob :
      (w u : Wiring) (nexts errors : Delayables) (s : Scheduling)
      → OnOk HasNoJob (
          delay_all now env draw w nexts s
          >>= (λ s. delay_all now env draw u errors s >>= (λ s. ok (s, none))))
  tail-HasNoJob w u nexts errors s =
      after_anything HasNoJob (delay_all now env draw w nexts s)
        (λ s. delay_all now env draw u errors s >>= (λ s. ok (s, none)))
        (λ a.
          after_anything HasNoJob (delay_all now env draw u errors a) (λ s. ok (s, none))
            (λ b. refl))

  delay-HasNoJob :
      (w : Wiring) (d : Delayable) (s : Scheduling)
      → is_single d ≡ false
      → OnOk HasNoJob (delay now env draw w d s)
  unfolding delay
  delay-HasNoJob w (single call nexts errors) s h = cc
  delay-HasNoJob w (group members nexts errors) s h =
      let (g, t) = own_uuid draw w.graph_uuid s in
      after_anything HasNoJob (delay_members now env draw (record w { graph_uuid = g }) members t) _
        (λ a. tail-HasNoJob _ _ nexts errors a.0)
  delay-HasNoJob w (chain links nexts errors) s h =
      let (g, t) = own_uuid draw w.graph_uuid s in
      after_anything HasNoJob (delay_links now env draw g w true none links t) _
        (λ a. tail-HasNoJob _ _ nexts errors a.0)

  delay_members_fails :
      (w : Wiring) (ds : Delayables) (s : Scheduling)
      → are_single ds ≡ false
      → is_err (delay_members now env draw w ds s) ≡ true
  unfolding delay
  delay_members_fails w nil s h = cc
  delay_members_fails w (cons d ds) s h = elim (Bool-cases (is_single d)) [
    | inl one ↦ fails_after_anything (delay now env draw w d s) _ (λ a.
        fails_after_anything (member_id a) _ (λ b.
          bind-fails (delay_members now env draw w ds b.0) _
            (delay_members_fails w ds b.0 (rw one at h))))
    | inr several ↦
        bind-err HasNoJob (delay now env draw w d s) _ (delay-HasNoJob w d s several)
          (λ a e. bind-fails (member_id a) _ (member_id-none a e))
  ]

  -- A group fails to be scheduled where one of its members is itself a group or a chain, whatever
  -- else it holds and whatever is to follow it.
  pub nested_group_fails :
      (w : Wiring) (members nexts errors : Delayables) (s : Scheduling)
      → are_single members ≡ false
      → is_err (delay now env draw w (group members nexts errors) s) ≡ true
  unfolding delay
  nested_group_fails w members nexts errors s h =
      let (g, t) = own_uuid draw w.graph_uuid s in
      bind-fails (delay_members now env draw (record w { graph_uuid = g }) members t) _
        (delay_members_fails (record w { graph_uuid = g }) members t h)
