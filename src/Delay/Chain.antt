-- ===== src/Delay/Chain.antt =====
-- A chain of plain calls, as a graph of its own and below another delayable.
use mathlib.Core.List.{append_assoc, append-nil}
use odoo_job_worker.Base.{
  ℕ, String, suc, ◌<◌, ◌≡◌, ◌∙◌, refl, sym, ap, Bool, true, false, Option, none, some, List, [],
  ◌∷◌, ◌++◌, All, length, ◌||◌, ◌==◌, is_some, Bool-cases, inl, inr, if◌then◌else◌, arith,
}
use odoo_job_worker.Job.{Job, State, waiting, pending, browse}
use odoo_job_worker.Queue.{Queue}
use odoo_job_worker.Queue.Enqueue.{Surroundings, new_job, has_parent, parent_stands}
use odoo_job_worker.Delay.{
  Delayed, Call, Delayable, chain, nil, Wiring, Scheduling, ok, own_uuid, link_wiring, request,
  delay, delay_links,
}
use odoo_job_worker.Delay.Plain.{IsPlain, singles, grown, job_of, delay-IsPlain}

-- `chain(*calls)`
abbrev pub chain_of : List Call → Delayable
chain_of calls = chain (singles calls) nil nil

abbrev pub waits_if : Option ℕ → State
waits_if none = pending
waits_if (some k) = waiting

-- Each row waits for the one before it, the first one for `previous`, if there is any.
abbrev pub IsLinked : Bool → Option ℕ → List Job → Type 0
IsLinked on_error previous [] = Unit
IsLinked on_error previous (r ∷ rows) =
    (r.parent_id ≡ previous)
    × (r.state ≡ waits_if previous)
    × (r.run_on_failure ≡ on_error)
    × IsLinked on_error (some r.id) rows

-- The ids of parents are not 0.
abbrev pub IsProper : Option ℕ → Type 0
IsProper none = Unit
IsProper (some k) = 0 < k

module _ (now : ℕ) (env : Surroundings) (draw : ℕ → ℕ) where
  job_of-waits :
      (w : Wiring) (method : String) (call : Call) (id : ℕ)
      → w.dependency_job_ids ≡ none
      → IsProper w.parent_job_id
      → (job_of now env w method call id).state ≡ waits_if w.parent_job_id
  unfolding new_job request
  job_of-waits w method call id e p = rw e (go w.parent_job_id p)
    where
      go :
          (parent : Option ℕ)
          → IsProper parent
          → (if has_parent parent || false then waiting else pending) ≡ waits_if parent
      go none p = refl
      go (some k) p = ground arith

  -- A row that has just been added stands as a parent.
  stands_last :
      (id : ℕ) (rows : List Job) (r : Job)
      → r.id ≡ id
      → parent_stands (some id) (rows ++ r ∷ []) ≡ true
  stands_last id rows r e = rw (found rows) (or_true (id == 0))
    where
      or_true : (b : Bool) → b || true ≡ true
      or_true true = refl
      or_true false = refl

      found : (xs : List Job) → is_some (browse id (xs ++ r ∷ [])) ≡ true
      found [] = ground (arith, e)
      found (x ∷ xs) = elim (Bool-cases (x.id == id)) [
        | inl hit ↦ rw hit refl
        | inr miss ↦ rw miss (found xs)
      ]

  job_of-id :
      (w : Wiring) (method : String) (call : Call) (id : ℕ)
      → (job_of now env w method call id).id ≡ id
  unfolding new_job
  job_of-id w method call id = refl

  -- What is known of the links of a chain once they are enqueued.
  abbrev Enqueued :
      Wiring → Option ℕ → List Call → Scheduling → Delayed (Scheduling × Option ℕ) → Type 0
  Enqueued w previous calls s answer =
      (q : Queue) × (last : Option ℕ) × (rows : List Job) × (answer
        ≡ ok (record s { queue = q }, last))
      × (q.jobs ≡ s.queue.jobs ++ rows)
      × (length rows ≡ length calls)
      × IsLinked w.run_on_failure previous rows

  -- A link that waits for `previous`, and the links after it.
  link_then :
      (g : Option ℕ) (w u : Wiring) (call : Call) (calls : List Call) (s : Scheduling)
      (first : Bool) (before : Option ℕ) (p : IsPlain env call)
      → link_wiring g w first before ≡ u
      → u.dependency_job_ids ≡ none
      → u.run_on_failure ≡ w.run_on_failure
      → IsProper u.parent_job_id
      → parent_stands u.parent_job_id s.queue.jobs ≡ true
      → Enqueued w
          (some s.queue.next_id)
          calls
          (record s { queue = grown s.queue (job_of now env u p.method call s.queue.next_id) })
          (delay_links now env draw g w false
            (some s.queue.next_id)
            (singles calls)
            (record s { queue = grown s.queue (job_of now env u p.method call s.queue.next_id) }))
      → Enqueued w u.parent_job_id
          (call ∷ calls)
          s
          (delay_links now env draw g w first before (singles (call ∷ calls)) s)
  unfolding delay new_job request
  link_then g w u call calls s first before p wired independent same proper stands
        (q, last, rows, e, grows, count, linked) =
      let job = job_of now env u p.method call s.queue.next_id in
      (
        q,
        last,
        job ∷ rows,
        rw (wired, delay-IsPlain now env draw u call s p stands, e),
        grows ∙ append_assoc s.queue.jobs (job ∷ []) rows,
        ap suc count,
        (refl, job_of-waits u p.method call s.queue.next_id independent proper, same, linked),
      )

  links_below :
      (g : Option ℕ) (w : Wiring) (k : ℕ) (calls : List Call) (s : Scheduling)
      → All (IsPlain env) calls
      → 0 < k
      → parent_stands (some k) s.queue.jobs ≡ true
      → 0 < s.queue.next_id
      → Enqueued w (some k) calls s (delay_links now env draw g w false (some k) (singles calls) s)
  unfolding delay
  links_below g w k [] s h p stands n =
      (s.queue, some k, [], refl, sym (append-nil s.queue.jobs), refl, tt)
  links_below g w k (call ∷ calls) s h p stands n =
      let u = link_wiring g w false (some k) in
      link_then g w u call calls s false (some k) h.0 refl refl refl p stands (
        links_below g w s.queue.next_id calls
          (record s { queue = grown s.queue (job_of now env u h.0.method call s.queue.next_id) })
          h.1 n
          (stands_last s.queue.next_id s.queue.jobs
            (job_of now env u h.0.method call s.queue.next_id)
            (job_of-id u h.0.method call s.queue.next_id))
          (omega arith))

  links_from_head :
      (g : Option ℕ) (w : Wiring) (calls : List Call) (s : Scheduling)
      → All (IsPlain env) calls
      → w.dependency_job_ids ≡ none
      → IsProper w.parent_job_id
      → parent_stands w.parent_job_id s.queue.jobs ≡ true
      → 0 < s.queue.next_id
      → Enqueued w w.parent_job_id calls s
          (delay_links now env draw g w true none (singles calls) s)
  unfolding delay
  links_from_head g w [] s h i p stands n =
      (s.queue, none, [], refl, sym (append-nil s.queue.jobs), refl, tt)
  links_from_head g w (call ∷ calls) s h i p stands n =
      let u = link_wiring g w true none in
      link_then g w u call calls s true none h.0 refl i refl p stands (
        links_below g w s.queue.next_id calls
          (record s { queue = grown s.queue (job_of now env u h.0.method call s.queue.next_id) })
          h.1 n
          (stands_last s.queue.next_id s.queue.jobs
            (job_of now env u h.0.method call s.queue.next_id)
            (job_of-id u h.0.method call s.queue.next_id))
          (omega arith))

  own_uuid-queue : (g : Option ℕ) (s : Scheduling) → (own_uuid draw g s).1.queue ≡ s.queue
  own_uuid-queue none s = refl
  own_uuid-queue (some g) s = refl

  -- A chain of plain calls, scheduled by itself or by another delayable, whose job it then waits
  -- for and whose row stands, is enqueued: as many rows are added as it has calls, each of which waits for the one before
  -- it; and every one of them is an on_error job if the chain is scheduled as an on_error handler.
  pub chain_scheduled :
      (w : Wiring) (calls : List Call) (s : Scheduling)
      → All (IsPlain env) calls
      → w.dependency_job_ids ≡ none
      → IsProper w.parent_job_id
      → parent_stands w.parent_job_id s.queue.jobs ≡ true
      → 0 < s.queue.next_id
      → (s' : Scheduling) × (rows : List Job) × (delay now env draw w (chain_of calls) s
          ≡ ok (s', none))
        × (s'.queue.jobs ≡ s.queue.jobs ++ rows)
        × (length rows ≡ length calls)
        × IsLinked w.run_on_failure w.parent_job_id rows
  unfolding delay
  chain_scheduled w calls s h i p stands n =
      let (g, t) = own_uuid draw w.graph_uuid s in
      let same : t.queue ≡ s.queue = own_uuid-queue w.graph_uuid s in
      let (q, last, rows, e, grows, count, linked) =
        links_from_head g w calls t h i p (rw same stands) (rw same n) in
      (record t { queue = q }, rows, rw e, grows ∙ rw same refl, count, linked)
