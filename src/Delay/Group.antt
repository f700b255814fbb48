-- ===== src/Delay/Group.antt =====
-- A group of plain calls and the barrier behind it.
use odoo_job_worker.Base.{
  ℕ, String, suc, ◌+◌, ◌≡◌, ◌∙◌, refl, sym, subst, ap, Bool, true, false, Option, none, some, List,
  [], ◌∷◌, ◌++◌, All, All-map, length, length-append, get_elem?, member, arith, if◌then◌else◌,
}
use odoo_job_worker.Job.{Job, waiting, pending, failed, lists_dependency}
use odoo_job_worker.Graph.Barrier.Outcome.{
  Ending, ended_job, all_succeeded, deliver_all, verdict, barrier_verdict,
}
use odoo_job_worker.Queue.{Queue}
use odoo_job_worker.Queue.Enqueue.{Surroundings, new_job}
use odoo_job_worker.Delay.{
  Call, Delayable, single, group, nil, cons, Wiring, unwired, Scheduling, ok, request, delay,
  delay_members,
}
use odoo_job_worker.Delay.Plain.{IsPlain, singles, grown, job_of, ids_from, delay-IsPlain}

-- `group(*calls).on_done(barrier)`
abbrev pub group_before : List Call → Call → Delayable
group_before calls barrier = group (singles calls) (cons (single barrier nil nil) nil) nil

module _ (now : ℕ) (env : Surroundings) (draw : ℕ → ℕ) where
  delay_members-singles :
      (w : Wiring) (calls : List Call) (s : Scheduling)
      → All (IsPlain env) calls
      → w.parent_job_id ≡ none
      → (q : Queue) × (delay_members now env draw w (singles calls) s
          ≡ ok (record s { queue = q }, ids_from s.queue.next_id calls))
        × (length q.jobs ≡ length s.queue.jobs + length calls)
  unfolding delay
  delay_members-singles w [] s h free = (s.queue, refl, omega arith)
  delay_members-singles w (call ∷ calls) s h free =
      let job = job_of now env w h.0.method call s.queue.next_id in
      let (q, e, count) =
        delay_members-singles w calls (record s { queue = grown s.queue job }) h.1 free in
      (
        q,
        rw (delay-IsPlain now env draw w call s h.0 (rw free refl), e),
        omega (arith, count, length-append s.queue.jobs (job ∷ [])),
      )

  get_elem?-last : (rows : List Job) (r : Job) → get_elem? (rows ++ r ∷ []) (length rows) ≡ some r
  get_elem?-last [] r = refl
  get_elem?-last (x ∷ rows) r = get_elem?-last rows r

  length-ids_from : (id : ℕ) (calls : List Call) → length (ids_from id calls) ≡ length calls
  length-ids_from id [] = refl
  length-ids_from id (call ∷ calls) = ap suc (length-ids_from (id + 1) calls)

  -- A job that waits for the jobs of a group.
  abbrev pub IsBarrierOf : List ℕ → Job → Type 0
  IsBarrierOf ids b =
      (b.state ≡ waiting)
      × (b.dependency_job_ids ≡ some ids)
      × (b.pending_dependency_count ≡ length ids)
      × (b.run_on_failure ≡ false)

  barrier-IsBarrierOf :
      (g : Option ℕ) (method : String) (call : Call) (id k : ℕ) (ids : List ℕ)
      → IsBarrierOf (k ∷ ids) (
          job_of now env
            (record unwired { graph_uuid = g; dependency_job_ids = some (k ∷ ids) })
            method
            call
            id)
  unfolding new_job request
  barrier-IsBarrierOf g method call id k ids = (refl, refl, refl, refl)

  -- A group of plain calls, at least one, and a plain call behind it are all enqueued; the last of
  -- the new rows is a barrier over the others.
  pub group_before_scheduled :
      (first : Call) (calls : List Call) (barrier : Call) (s : Scheduling)
      → All (IsPlain env) (first ∷ calls)
      → IsPlain env barrier
      → (s' : Scheduling) × (b : Job) × (delay now env draw unwired
            (group_before (first ∷ calls) barrier)
            s
          ≡ ok (s', none))
        × (get_elem? s'.queue.jobs (length s.queue.jobs + length (first ∷ calls)) ≡ some b)
        × IsBarrierOf (ids_from s.queue.next_id (first ∷ calls)) b
  unfolding delay
  group_before_scheduled first calls barrier s h p =
      let g = some (draw s.drawn) in
      let drawn : Scheduling = record s { drawn = s.drawn + 1 } in
      let (q, e, count) =
        delay_members-singles (record unwired { graph_uuid = g }) (first ∷ calls) drawn h refl in
      let wiring = record unwired {
        graph_uuid = g;
        dependency_job_ids = some (ids_from s.queue.next_id (first ∷ calls));
      } in
      let b = job_of now env wiring p.method barrier q.next_id in
      (
        record drawn { queue = grown q b },
        b,
        rw (e, delay-IsPlain now env draw wiring barrier (record drawn { queue = q }) p refl),
        rw (sym count) (get_elem?-last q.jobs b),
        barrier-IsBarrierOf g p.method barrier q.next_id s.queue.next_id
            (ids_from (s.queue.next_id + 1) calls),
      )

  ok-injective :
      (a : Scheduling × Option ℕ) (s t : Scheduling) → a ≡ (s, none) → ok a ≡ ok (t, none) → s ≡ t
  ok-injective a s t e h = cc

  -- Take a plain call that is to follow a group of plain calls, at least one. Once the graph is
  -- enqueued and as many jobs of the group have ended as it has members, whatever their order, the
  -- job of that call is decided: it is pending if all of them succeeded, and has failed otherwise.
  pub group_before_verdict :
      (first : Call) (calls : List Call) (barrier : Call) (s s' : Scheduling) (later : ℕ)
      (es : List Ending) (after : Job)
      → All (IsPlain env) (first ∷ calls)
      → IsPlain env barrier
      → delay now env draw unwired (group_before (first ∷ calls) barrier) s ≡ ok (s', none)
      → All (λ e. member (ended_job e) (ids_from s.queue.next_id (first ∷ calls)) ≡ true) es
      → length es ≡ length (first ∷ calls)
      → get_elem?
          (deliver_all later es s'.queue.jobs)
          (length s.queue.jobs + length (first ∷ calls))
        ≡ some after
      → after.state ≡ (if all_succeeded es then pending else failed)
  group_before_verdict first calls barrier s s' later es after h p e listed enough at_after =
      let (t, b, scheduled, stands, (waits, lists, counts, on_done)) =
        group_before_scheduled first calls barrier s h p in
      let same : t ≡ s' = ok-injective (t, none) t s' refl (sym scheduled ∙ e) in
      let stands' : get_elem? s'.queue.jobs (length s.queue.jobs + length (first ∷ calls))
          ≡ some b =
        subst
          (λ (u : Scheduling).
            get_elem? u.queue.jobs (length s.queue.jobs + length (first ∷ calls)) ≡ some b)
          same stands in
      let decided =
        barrier_verdict later es s'.queue.jobs (length s.queue.jobs + length (first ∷ calls)) b
          after stands' at_after waits
          (All-map {Q = λ e. lists_dependency b.dependency_job_ids (ended_job e) ≡ true}
            (λ e m. rw lists m) es listed)
          (omega (arith, counts, enough, length-ids_from s.queue.next_id (first ∷ calls)))
          (omega (arith, enough)) in
      decided ∙ rw on_done (verdict_of (all_succeeded es))
    where
      verdict_of : (b : Bool) → verdict false b ≡ (if b then pending else failed)
      verdict_of true = refl
      verdict_of false = refl
