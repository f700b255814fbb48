-- ===== src/System/Sound.antt =====
-- What stays true of the queue whatever steps are taken.
use mathlib.Core.Option.{some-injective}
use odoo_job_worker.Base.{
  ℕ, ◌+◌, ◌≡◌, ◌<◌, refl, sym, subst, false, Option, none, some, List, [], ◌∷◌, ◌++◌, String, All,
  All-map, All-append, All-keep_if, Zip, Bool-cases, inl, inr, or_none, length, arith,
}
use odoo_job_worker.Job.{Job, browse, write}
use odoo_job_worker.Queue.{Queue, key_is_taken}
use odoo_job_worker.Queue.Sound.{IsSound, IsQuiet, Zip-IsQuiet-trans, All-IsQuiet, IsSound-IsQuiet}
use odoo_job_worker.Queue.Sound.Rows.{HasUniqueIds-snoc, IsSound-keep_if}
use odoo_job_worker.Queue.Sound.Revive.{write-IsSound, All-write}
use odoo_job_worker.Queue.Enqueue.{Request, Surroundings, new_job, enqueue, ok}
use odoo_job_worker.Queue.Enqueue.Dedup.{OnOk, enqueue-OnOk, index_admits, HasUniqueKeys-snoc}
use odoo_job_worker.Queue.Buttons.{button_requeue, gc_loop, chunk_size}
use odoo_job_worker.Queue.Buttons.Keys.{cascade_failure-IsQuiet, fail_dependents-IsQuiet}
use odoo_job_worker.Queue.Buttons.Requeue.{
  button_requeue-IsSound, button_requeue-All, button_requeue-next_id,
}
use odoo_job_worker.Queue.Buttons.Ended.{button_set_to_done-IsQuiet, button_set_to_failed-IsQuiet}
use odoo_job_worker.Queue.Buttons.Vacuum.{unexpired, gc_loop-eq-unexpired}
use odoo_job_worker.Queue.Buttons.Cancel.Cascade.{button_cancelled-Cancels}
use odoo_job_worker.Worker.Outcome.{
  Config, Raised, after_exception, handle_exception, cascade_failure_to_dependents, ends_job,
}
use odoo_job_worker.System.{
  Step, Reach, enqueues, requeues, sets_done, sets_failed, cancels, vacuums, takes, runs, raises,
  finishes, here, next,
}
use odoo_job_worker.System.Takes.{acquire-IsQuiet}
use odoo_job_worker.System.Quiet.{
  Zip-Cancels-IsQuiet, finalize_job-IsQuiet, run_statement-IsQuiet, after_exception_keeps,
}

-- No two rows share an id, no two active rows share an identity key, keys are stored as `enqueue`
-- stores them, and every id is below the next one of the sequence.
abbrev pub IsConsistent : Queue → Type 0
IsConsistent q = IsSound q.jobs × All (λ r. r.id < q.next_id) q.jobs

IsConsistent-IsQuiet :
    (q : Queue) (rows : List Job)
    → Zip IsQuiet q.jobs rows
    → IsConsistent q
    → IsConsistent (record q { jobs = rows })
IsConsistent-IsQuiet q rows z c =
    (IsSound-IsQuiet q.jobs rows z c.0, All-IsQuiet (λ i _. i < q.next_id) q.jobs rows z c.1)

new_job-stored :
    (now id : ℕ) (company : Option ℕ) (req : Request)
    → or_none (new_job now id company req).identity_key ≡ (new_job now id company req).identity_key
unfolding new_job
new_job-stored now id company req = go req.identity_key
  where
    go : (k : Option String) → or_none (or_none k) ≡ or_none k
    go none = refl
    go (some t) = ground arith

enqueue-IsConsistent :
    (now : ℕ) (env : Surroundings) (req : Request) (q : Queue) {q' : Queue} {job : ℕ}
    → enqueue now env [] req q ≡ ok (q', job)
    → IsConsistent q
    → IsConsistent q'
unfolding new_job
enqueue-IsConsistent now env req q e c =
    let fresh = new_job now q.next_id env.company req in
    let same : (q.jobs ++ []) ≡ q.jobs = append_nil q.jobs in
    subst (OnOk (λ q _. IsConsistent q)) e (
      enqueue-OnOk (λ q _. IsConsistent q) now env [] req q (λ _ _. c) (λ _ _. rw same c)
        (λ admitted. rw same (
          (
            HasUniqueIds-snoc q.jobs fresh c.1 c.0.0,
            All-append (λ r. or_none r.identity_key ≡ r.identity_key) q.jobs (fresh ∷ []) c.0.1
                (new_job-stored now q.next_id env.company req, tt),
            HasUniqueKeys-snoc q.jobs fresh c.0.2 (index_admits fresh q.jobs (rw same at admitted)),
          ),
          All-append (λ r. r.id < q.next_id + 1) q.jobs (fresh ∷ [])
              (All-map {Q = λ r. r.id < q.next_id + 1} (λ r h. omega arith) q.jobs c.1)
              (omega arith, tt),
        )))
  where
    append_nil : (rows : List Job) → (rows ++ []) ≡ rows
    append_nil [] = refl
    append_nil (r ∷ rows) = rw (append_nil rows) refl

requeue-IsConsistent :
    (now : ℕ) (jobs : List ℕ) (q : Queue)
    → IsConsistent q
    → IsConsistent (button_requeue now jobs q)
requeue-IsConsistent now jobs q c = (
  button_requeue-IsSound now jobs q c.0,
  subst (λ n. All (λ r. r.id < n) (button_requeue now jobs q).jobs)
      (sym (button_requeue-next_id now jobs q))
      (button_requeue-All (λ i _. i < q.next_id) now jobs q c.1),
)

vacuum-IsConsistent :
    (fuel cutoff : ℕ) (q : Queue) (rows : List Job)
    → length q.jobs < fuel
    → gc_loop fuel chunk_size cutoff q.jobs ≡ some rows
    → IsConsistent q
    → IsConsistent (record q { jobs = rows })
vacuum-IsConsistent fuel cutoff q rows enough e c =
    let left : unexpired cutoff q.jobs ≡ rows =
      some-injective _ _
        (rw (gc_loop-eq-unexpired cutoff fuel chunk_size q.jobs (omega arith) enough) at e) in
    subst (λ rows. IsConsistent (record q { jobs = rows })) left
      (
        IsSound-keep_if _ q.jobs c.0,
        All-keep_if (λ r. r.id < q.next_id) _ q.jobs (All-map (λ r h k. h) q.jobs c.1),
      )

raise-IsConsistent :
    (c : Config) (now : ℕ) (text : String) (exc : Raised) (job : Job) (q : Queue)
    → browse job.id q.jobs ≡ some job
    → key_is_taken job q.jobs ≡ false
    → IsConsistent q
    → IsConsistent (record q { jobs = handle_exception c now text exc job q.jobs })
unfolding handle_exception cascade_failure_to_dependents
raise-IsConsistent c now text exc job q found free k =
    let keeps = after_exception_keeps c now text exc in
    let written : IsConsistent
        (record q { jobs = write job.id (after_exception c now text exc) q.jobs }) =
      (
        write-IsSound (after_exception c now text exc) keeps job.id job q.jobs found free k.0,
        All-write (after_exception c now text exc) keeps (λ i _. i < q.next_id) job.id q.jobs k.1,
      ) in
    elim (Bool-cases (ends_job c now exc job)) [
      | inl ends ↦ rw ends (
          IsConsistent-IsQuiet
            (record q { jobs = write job.id (after_exception c now text exc) q.jobs }) _
            (Zip-IsQuiet-trans _ _ _ (cascade_failure-IsQuiet now job.id _)
              (fail_dependents-IsQuiet now (job.id ∷ []) _))
            written)
      | inr goes_on ↦ rw goes_on written
    ]

pub Step-IsConsistent : {q q' : Queue} → Step q q' → IsConsistent q → IsConsistent q'
Step-IsConsistent (enqueues now env req {q} e) c = enqueue-IsConsistent now env req q e c
Step-IsConsistent (requeues now jobs q) c = requeue-IsConsistent now jobs q c
Step-IsConsistent (sets_done now jobs q e) c =
    IsConsistent-IsQuiet q _ (button_set_to_done-IsQuiet now jobs q.jobs _ e) c
Step-IsConsistent (sets_failed now jobs q e) c =
    IsConsistent-IsQuiet q _ (button_set_to_failed-IsQuiet now jobs q.jobs _ e) c
Step-IsConsistent (cancels fuel now jobs q e) c =
    IsConsistent-IsQuiet q _
      (Zip-Cancels-IsQuiet now q.jobs _ (button_cancelled-Cancels fuel now jobs q.jobs _ e)) c
Step-IsConsistent (vacuums fuel cutoff q {rows} enough e) c =
    vacuum-IsConsistent fuel cutoff q rows enough e c
Step-IsConsistent (takes now stale worker limits locked q) c =
    IsConsistent-IsQuiet q _ (acquire-IsQuiet now stale worker limits locked q.jobs c.0.0) c
Step-IsConsistent (runs now worker ceiling s q) c =
    IsConsistent-IsQuiet q _ (run_statement-IsQuiet now worker ceiling s q.jobs) c
Step-IsConsistent (raises c now text exc job q found free) k =
    raise-IsConsistent c now text exc job q found free k
Step-IsConsistent (finishes now result job q) c =
    IsConsistent-IsQuiet q _ (finalize_job-IsQuiet now result job q.jobs) c

-- Whatever is enqueued, requeued, set, cancelled, vacuumed, taken, beaten, timed out, failed, retried
-- and finished, in any order: if at first no two rows share an id, no two active rows share an
-- identity key, keys are stored as `enqueue` stores them and ids are below the next one of the
-- sequence, this is so ever after.
pub Reach-IsConsistent : (q q' : Queue) → Reach q q' → IsConsistent q → IsConsistent q'
Reach-IsConsistent q q' here c = c
Reach-IsConsistent q q' (next r s) c = Step-IsConsistent s (Reach-IsConsistent q _ r c)
