-- ===== src/Delay/Plain.antt =====
-- Calls that always become jobs of their own.

use odoo_job_worker.Base.{
  ℕ, ◌+◌, ◌≡◌, refl, Bool, true, false, Option, none, some, String, List, [], ◌∷◌, ◌++◌, same_text,
  str_eq, is_dunder, or_none, ◌&&◌, arith,
}
use odoo_job_worker.Job.{Job, is_active}
use odoo_job_worker.Queue.{Queue, holds_key, find_active}
use odoo_job_worker.Queue.Enqueue.{
  Eta, at, after, Surroundings, eta_conflicts, parent_stands, new_job,
}
use odoo_job_worker.Queue.Enqueue.Repeat.{IsValid, enqueue_valid}
use odoo_job_worker.Delay.{
  Call, Delayables, single, nil, cons, Wiring, Scheduling, ok, normalized_eta, request,
  enqueue_call, delay,
}

-- A call that `enqueue` accepts below a parent that stands, without an identity key.
pub record IsPlain (env : Surroundings) (call : Call) : Type 0 where
  pub method : String
  pub is_method : call.job_method ≡ some method
  pub named : str_eq call.model "" ≡ false
  pub known : env.model_exists call.model ≡ true
  pub callable : is_dunder method ≡ false
  pub encoded :
      env.encodes (record {
        model = call.model;
        method = method;
        ids = call.ids;
        args = call.args;
        kwargs = call.kwargs;
      })
      ≡ true
  pub keyless : or_none call.identity_key ≡ none

abbrev pub singles : List Call → Delayables
singles [] = nil
singles (call ∷ calls) = cons (single call nil nil) (singles calls)

normalized_eta-consistent :
    (now : ℕ) (eta : Option Eta) → eta_conflicts (normalized_eta now eta) none ≡ false
normalized_eta-consistent now none = refl
normalized_eta-consistent now (some (at t)) = refl
normalized_eta-consistent now (some (after d)) = refl

find_active-keyless : (rows : List Job) → find_active none rows ≡ none
find_active-keyless [] = refl
find_active-keyless (r ∷ rows) =
    let free : holds_key none r ≡ false = no_key (is_active r.state) r.identity_key in
    rw free (find_active-keyless rows)
  where
    no_key : (b : Bool) (k : Option String) → b && same_text k none ≡ false
    no_key b none = ground arith
    no_key b (some t) = ground arith

-- The row of a call with a given id, and the queue with it.
abbrev pub job_of : ℕ → Surroundings → Wiring → String → Call → ℕ → Job
job_of now env w method call id = new_job now id env.company (request now w method call)

abbrev pub grown : Queue → Job → Queue
grown q job = record {
  jobs = q.jobs ++ job ∷ [];
  next_id = q.next_id + 1;
  notifications = q.notifications + 1;
}

pub enqueue_call-IsPlain :
    (now : ℕ) (env : Surroundings) (w : Wiring) (call : Call) (s : Scheduling)
    (p : IsPlain env call)
    → parent_stands w.parent_job_id s.queue.jobs ≡ true
    → enqueue_call now env w call.job_method call s
      ≡ ok (
        record s { queue = grown s.queue (job_of now env w p.method call s.queue.next_id) },
        s.queue.next_id,
      )
unfolding enqueue_call request
enqueue_call-IsPlain now env w call s p stands =
    let valid : IsValid env (request now w p.method call) = record {
      named = p.named;
      known = p.known;
      callable = p.callable;
      consistent = normalized_eta-consistent now call.eta;
    } in
    rw (
      p.is_method,
      enqueue_valid now env (request now w p.method call) s.queue valid
          (record { encoded = p.encoded; stands = stands }),
      p.keyless,
      find_active-keyless s.queue.jobs,
    )

pub delay-IsPlain :
    (now : ℕ) (env : Surroundings) (draw : ℕ → ℕ) (w : Wiring) (call : Call) (s : Scheduling)
    (p : IsPlain env call)
    → parent_stands w.parent_job_id s.queue.jobs ≡ true
    → delay now env draw w (single call nil nil) s
      ≡ ok (
        record s { queue = grown s.queue (job_of now env w p.method call s.queue.next_id) },
        some s.queue.next_id,
      )
unfolding delay
delay-IsPlain now env draw w call s p stands = rw (enqueue_call-IsPlain now env w call s p stands)

-- As many ids as there are calls, from the next one on.
abbrev pub ids_from : ℕ → List Call → List ℕ
ids_from id [] = []
ids_from id (call ∷ calls) = id ∷ ids_from (id + 1) calls
