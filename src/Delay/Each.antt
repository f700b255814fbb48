-- ===== src/Delay/Each.antt =====
-- The calls of a graph, and a relation that every call of `enqueue` keeps to, over its scheduling.

use odoo_job_worker.Base.{
  ℕ, ◌≡◌, refl, String, Bool, true, false, Option, none, some, List, [], ◌∷◌, ◌++◌,
}
use odoo_job_worker.Queue.{Queue}
use odoo_job_worker.Queue.Enqueue.{Surroundings, Result, enqueue}
use odoo_job_worker.Delay.{
  Call, Delayable, Delayables, single, group, chain, nil, cons, Wiring, Scheduling, Delayed, ok,
  err, ◌>>=◌, request, enqueued, enqueue_call, own_uuid, single_uuid, member_id, link_wiring, delay,
  delay_all, delay_members, delay_links,
}

-- What holds of the answer, if there is one.
abbrev pub OnOk {ℓ} : {A : Type ℓ} → (A → Type 0) → Delayed A → Type 0
OnOk P (ok a) = P a
OnOk P (err e) = Unit

pub bind-OnOk {ℓ κ} :
    {A : Type ℓ} {B : Type κ} (P : A → Type 0) (Q : B → Type 0) (m : Delayed A) (f : A → Delayed B)
    → OnOk P m
    → ((a : A) → P a → OnOk Q (f a))
    → OnOk Q (m >>= f)
bind-OnOk P Q (ok a) f p h = h a p
bind-OnOk P Q (err e) f p h = tt

-- The calls of a graph: what is to follow a delayable comes after it, `on_done` before `on_error`.
abbrev mutual
  pub calls_of : Delayable → List Call
  calls_of (single call nexts errors) = (call ∷ calls_of_all nexts) ++ calls_of_all errors
  calls_of (group members nexts errors) =
      (calls_of_all members ++ calls_of_all nexts) ++ calls_of_all errors
  calls_of (chain links nexts errors) =
      (calls_of_all links ++ calls_of_all nexts) ++ calls_of_all errors

  pub calls_of_all : Delayables → List Call
  calls_of_all nil = []
  calls_of_all (cons d ds) = calls_of d ++ calls_of_all ds

-- A relation that a call of `enqueue` for a call keeps to, and that goes on from call to call.
module _ (now : ℕ) (env : Surroundings) (draw : ℕ → ℕ) (R : List Call → Queue → Queue → Type 0)
    (R-refl : (q : Queue) → R [] q q)
    (R-trans : (xs ys : List Call) (q r s : Queue) → R xs q r → R ys r s → R (xs ++ ys) q s)
    (R-enqueue : (w : Wiring) (method : String) (call : Call) (q q' : Queue) (job : ℕ)
      → call.job_method ≡ some method
      → enqueue now env [] (request now w method call) q ≡ Result.ok (q', job)
      → R (call ∷ []) q q') where
  enqueue_call-From :
      (w : Wiring) (method : Option String) (call : Call) (s : Scheduling)
      → call.job_method ≡ method
      → OnOk (λ a. R (call ∷ []) s.queue a.0.queue) (enqueue_call now env w method call s)
  unfolding enqueue_call
  enqueue_call-From w none call s m = tt
  enqueue_call-From w (some method) call s m = go _ refl
    where
      go :
          (r : Result (Queue × ℕ))
          → enqueue now env [] (request now w method call) s.queue ≡ r
          → OnOk (λ a. R (call ∷ []) s.queue a.0.queue) (enqueued s r)
      go (Result.ok (q', job)) e = R-enqueue w method call s.queue q' job m e
      go (Result.err e') e = tt

  -- Drawing a uuid leaves the queue alone.
  own_uuid-queue : (g : Option ℕ) (s : Scheduling) → (own_uuid draw g s).1.queue ≡ s.queue
  own_uuid-queue none s = refl
  own_uuid-queue (some g) s = refl

  single_uuid-queue :
      (nexts errors : Delayables) (g : Option ℕ) (s : Scheduling)
      → (single_uuid draw nexts errors g s).1.queue ≡ s.queue
  single_uuid-queue nil nil g s = refl
  single_uuid-queue nil (cons d ds) g s = own_uuid-queue g s
  single_uuid-queue (cons d ds) errors g s = own_uuid-queue g s

  from_uuid : (q : Queue) (s : Scheduling) → q ≡ s.queue → R [] s.queue q
  from_uuid q s e = rw e (R-refl s.queue)

  -- A step after those that led from `q` to `t`, for the calls `xs`.
  then_ {ℓ κ} :
      {A : Type ℓ} {B : Type κ} (at_a : A → Queue) (at_b : B → Queue) (xs ys zs : List Call)
      (q t : Queue) (m : Delayed A) (f : A → Delayed B)
      → R xs q t
      → OnOk (λ a. R ys t (at_a a)) m
      → ((a : A) → R (xs ++ ys) q (at_a a) → OnOk (λ b. R zs q (at_b b)) (f a))
      → OnOk (λ b. R zs q (at_b b)) (m >>= f)
  then_ at_a at_b xs ys zs q t m f r h k =
      bind-OnOk (λ a. R ys t (at_a a)) (λ b. R zs q (at_b b)) m f h
        (λ a p. k a (R-trans xs ys q t (at_a a) r p))

  last {ℓ} :
      {A : Type ℓ} (at_a : A → Queue) (xs ys : List Call) (q t : Queue) (m : Delayed A)
      → R xs q t
      → OnOk (λ a. R ys t (at_a a)) m
      → OnOk (λ a. R (xs ++ ys) q (at_a a)) m
  last at_a xs ys q t (ok a) r h = R-trans xs ys q t (at_a a) r h
  last at_a xs ys q t (err e) r h = tt

  -- Reading the id of a member leaves the queue alone.
  member_id-OnOk :
      (xs : List Call) (q : Queue) (a : Scheduling × Option ℕ)
      → R xs q a.0.queue
      → OnOk (λ b. R xs q b.0.queue) (member_id a)
  member_id-OnOk xs q (s, none) r = tt
  member_id-OnOk xs q (s, some job) r = r

  mutual
    unfolding delay

    pub delay-OnOk :
        (w : Wiring) (d : Delayable) (s : Scheduling)
        → OnOk (λ a. R (calls_of d) s.queue a.0.queue) (delay now env draw w d s)
    delay-OnOk w (single call nexts errors) s =
        let (g, u) = single_uuid draw nexts errors w.graph_uuid s in
        then_ (λ a. a.0.queue) (λ a. a.0.queue) [] (call ∷ []) _ s.queue u.queue _ _
          (from_uuid u.queue s (single_uuid-queue nexts errors w.graph_uuid s))
          (enqueue_call-From (record w { graph_uuid = g }) call.job_method call u refl)
          (λ a r.
            then_ (λ a. a.queue) (λ a. a.0.queue) (call ∷ []) (calls_of_all nexts) _ s.queue
              a.0.queue _ _ r (delay_all-OnOk _ nexts a.0)
              (λ b r.
                then_ (λ a. a.queue) (λ a. a.0.queue) ((call ∷ []) ++ calls_of_all nexts)
                  (calls_of_all errors) _ s.queue b.queue _ _ r (delay_all-OnOk _ errors b)
                  (λ c r. r)))
    delay-OnOk w (group members nexts errors) s =
        let (g, u) = own_uuid draw w.graph_uuid s in
        then_ (λ a. a.0.queue) (λ a. a.0.queue) [] (calls_of_all members) _ s.queue u.queue _ _
          (from_uuid u.queue s (own_uuid-queue w.graph_uuid s))
          (delay_members-OnOk (record w { graph_uuid = g }) members u)
          (λ a r.
            then_ (λ a. a.queue) (λ a. a.0.queue) (calls_of_all members) (calls_of_all nexts) _
              s.queue a.0.queue _ _ r (delay_all-OnOk _ nexts a.0)
              (λ b r.
                then_ (λ a. a.queue) (λ a. a.0.queue) ((calls_of_all members) ++ calls_of_all nexts)
                  (calls_of_all errors) _ s.queue b.queue _ _ r (delay_all-OnOk _ errors b)
                  (λ c r. r)))
    delay-OnOk w (chain links nexts errors) s =
        let (g, u) = own_uuid draw w.graph_uuid s in
        then_ (λ a. a.0.queue) (λ a. a.0.queue) [] (calls_of_all links) _ s.queue u.queue _ _
          (from_uuid u.queue s (own_uuid-queue w.graph_uuid s))
          (delay_links-OnOk g w true none links u)
          (λ a r.
            then_ (λ a. a.queue) (λ a. a.0.queue) (calls_of_all links) (calls_of_all nexts) _
              s.queue a.0.queue _ _ r (delay_all-OnOk _ nexts a.0)
              (λ b r.
                then_ (λ a. a.queue) (λ a. a.0.queue) ((calls_of_all links) ++ calls_of_all nexts)
                  (calls_of_all errors) _ s.queue b.queue _ _ r (delay_all-OnOk _ errors b)
                  (λ c r. r)))

    delay_all-OnOk :
        (w : Wiring) (ds : Delayables) (s : Scheduling)
        → OnOk (λ a. R (calls_of_all ds) s.queue a.queue) (delay_all now env draw w ds s)
    delay_all-OnOk w nil s = R-refl s.queue
    delay_all-OnOk w (cons d ds) s =
        then_ (λ a. a.0.queue) (λ a. a.queue) [] (calls_of d) _ s.queue s.queue _ _ (R-refl s.queue)
          (delay-OnOk w d s)
          (λ a r.
            last (λ a. a.queue) (calls_of d) (calls_of_all ds) s.queue a.0.queue
              (delay_all now env draw w ds a.0) r (delay_all-OnOk w ds a.0))

    delay_members-OnOk :
        (w : Wiring) (ds : Delayables) (s : Scheduling)
        → OnOk (λ a. R (calls_of_all ds) s.queue a.0.queue) (delay_members now env draw w ds s)
    delay_members-OnOk w nil s = R-refl s.queue
    delay_members-OnOk w (cons d ds) s =
        then_ (λ a. a.0.queue) (λ a. a.0.queue) [] (calls_of d) _ s.queue s.queue _ _
          (R-refl s.queue) (delay-OnOk w d s)
          (λ a r.
            bind-OnOk (λ b. R (calls_of d) s.queue b.0.queue)
              (λ b. R (calls_of_all (cons d ds)) s.queue b.0.queue) (member_id a) _
              (member_id-OnOk (calls_of d) s.queue a r)
              (λ b r.
                then_ (λ a. a.0.queue) (λ a. a.0.queue) (calls_of d) (calls_of_all ds) _ s.queue
                  b.0.queue _ _ r (delay_members-OnOk w ds b.0) (λ c r. r)))

    delay_links-OnOk :
        (g : Option ℕ) (w : Wiring) (first : Bool) (previous : Option ℕ) (ds : Delayables)
        (s : Scheduling)
        → OnOk
            (λ a. R (calls_of_all ds) s.queue a.0.queue)
            (delay_links now env draw g w first previous ds s)
    delay_links-OnOk g w first previous nil s = R-refl s.queue
    delay_links-OnOk g w first previous (cons d ds) s =
        then_ (λ a. a.0.queue) (λ a. a.0.queue) [] (calls_of d) _ s.queue s.queue _ _
          (R-refl s.queue) (delay-OnOk (link_wiring g w first previous) d s)
          (λ a r.
            last (λ a. a.0.queue) (calls_of d) (calls_of_all ds) s.queue a.0.queue
              (delay_links now env draw g w false a.1 ds a.0) r
              (delay_links-OnOk g w false a.1 ds a.0))
