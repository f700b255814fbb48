-- ===== src/Delay/Steps.antt =====
-- The scheduling of a graph as a sequence of calls of `enqueue`.
use mathlib.Core.List.{append_assoc, append-nil}
use odoo_job_worker.Base.{ℕ, ◌≡◌, refl, sym, subst, Option, some, String, List, [], ◌∷◌, ◌++◌, ◌∙◌}
use odoo_job_worker.Job.{Job}
use odoo_job_worker.Queue.{Queue}
use odoo_job_worker.Queue.Enqueue.{Request, Surroundings, Result, new_job, enqueue}
use odoo_job_worker.Queue.Enqueue.Dedup as Enqueue
use odoo_job_worker.Queue.Enqueue.Dedup.{enqueue-OnOk}
use odoo_job_worker.Delay.{Call, Delayable, Wiring, Scheduling, ok, request, delay}
use odoo_job_worker.Delay.Each.{OnOk, calls_of, delay-OnOk}

-- The queue after a call of `enqueue` for each of the calls, in this order, each with the method that
-- was stored and the wiring that its place in the graph gives it.
pub data Enqueued (now : ℕ) (env : Surroundings) : List Call → Queue → Queue → Type 0 where
  none_left : {q : Queue} → Enqueued now env [] q q
  enqueued :
      (w : Wiring) (method : String) {call : Call} {calls : List Call} {q r s : Queue} {job : ℕ}
      → call.job_method ≡ some method
      → enqueue now env [] (request now w method call) q ≡ Result.ok (r, job)
      → Enqueued now env calls r s
      → Enqueued now env (call ∷ calls) q s

Enqueued-trans :
    (now : ℕ) (env : Surroundings) (xs ys : List Call) (q r s : Queue)
    → Enqueued now env xs q r
    → Enqueued now env ys r s
    → Enqueued now env (xs ++ ys) q s
Enqueued-trans now env _ ys q _ s none_left b = b
Enqueued-trans now env _ ys q r s (enqueued w method {calls = calls} {r = t} m e rest) b =
    enqueued w method m e (Enqueued-trans now env calls ys t r s rest b)

-- If the scheduling of a graph of delayables does not fail, it comes to one call of `enqueue` for each
-- call of the graph, none left out and none twice: the calls of a delayable, then those of its
-- `on_done` list, then those of its `on_error` list, members and links in their order. Each call of
-- `enqueue` gets the properties of its call; the theorem leaves open which parent, dependencies, graph
-- and disposition go with them.
pub delay-Enqueued :
    (now : ℕ) (env : Surroundings) (draw : ℕ → ℕ) (w : Wiring) (d : Delayable) (s s' : Scheduling)
    (job : Option ℕ)
    → delay now env draw w d s ≡ ok (s', job)
    → Enqueued now env (calls_of d) s.queue s'.queue
delay-Enqueued now env draw w d s s' job e =
    subst (OnOk (λ a. Enqueued now env (calls_of d) s.queue a.0.queue)) e (
      delay-OnOk now env draw (Enqueued now env) (λ q. none_left) (Enqueued-trans now env)
        (λ w method call q q' job m e. enqueued w method m e none_left) w d s)

-- The rows that stood before, and others after them.
abbrev pub Extends : Queue → Queue → Type 0
Extends q q' = (rows : List Job) × (q'.jobs ≡ q.jobs ++ rows)

Extends-trans : (q r s : Queue) → Extends q r → Extends r s → Extends q s
Extends-trans q r s (xs, e) (ys, f) = (xs ++ ys, f ∙ rw (e, append_assoc q.jobs xs ys))

enqueue-Extends :
    (now : ℕ) (env : Surroundings) (req : Request) (q q' : Queue) (job : ℕ)
    → enqueue now env [] req q ≡ Result.ok (q', job)
    → Extends q q'
enqueue-Extends now env req q q' job e = subst (Enqueue.OnOk (λ r _. Extends q r)) e (
    enqueue-OnOk (λ r _. Extends q r) now env [] req q (λ _ _. ([], sym (append-nil q.jobs)))
      (λ _ _. ([], refl))
      (λ admitted. (new_job now q.next_id env.company req ∷ [], rw (append-nil q.jobs) refl)))

-- The scheduling of a graph of delayables, if it does not fail, leaves the rows that stood before as
-- they were, in their places.
pub delay-Extends :
    (now : ℕ) (env : Surroundings) (draw : ℕ → ℕ) (w : Wiring) (d : Delayable) (s s' : Scheduling)
    (job : Option ℕ)
    → delay now env draw w d s ≡ ok (s', job)
    → Extends s.queue s'.queue
delay-Extends now env draw w d s s' job e = subst (OnOk (λ a. Extends s.queue a.0.queue)) e (
    delay-OnOk now env draw (λ _. Extends) (λ q. ([], sym (append-nil q.jobs)))
      (λ _ _. Extends-trans)
      (λ w method call q q' job m e. enqueue-Extends now env (request now w method call) q q' job e)
      w d s)
