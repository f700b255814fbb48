-- ===== src/Runner/Stall.antt =====
-- The stall watchdog of the supervisor: `_check_worker_progress`, and the stamp on the jobs in flight
-- before the process exits.
use odoo_job_worker.Base.{
  ℕ, zero, suc, ◌-◌, ◌<◌, ◌≡◌, ◌∙◌, ◌⊎◌, inl, inr, refl, sym, ap, subst, Bool, true, false, ◌&&◌,
  Option, none, some, List, [], ◌∷◌, map, String, str_eq, ltb, ◌==◌, if◌then◌else◌, is_key,
  update_if, get_elem?, get_elem?-update_if, Bool-cases, arith,
}
use mathlib.Core.Option.{some-injective}
use odoo_job_worker.Job.{Job, Diagnosis, worker_stalled, stalled_beside, worker_died, is_started}
use odoo_job_worker.Worker.Acquire.{append_diagnosis, give_up}

-- A database of `_worker_instances`: its worker, whether the thread of the worker is alive, its
-- table, and whether it answers a new connection.
pub record Served : Type 0 where
  pub name : String
  pub worker_uuid : ℕ
  pub last_progress : ℕ
  pub alive : Bool
  pub jobs : List Job
  pub reachable : Bool

abbrev pub is_stalled : ℕ → ℕ → Served → Bool
is_stalled limit now d = d.alive && ltb limit (now - d.last_progress)

-- The loop of `_check_worker_progress`. `stopping` tells whether the stop event is set when it comes
-- to a database.
unfoldable pub find_stalled : ℕ → ℕ → (String → Bool) → List Served → Option Served
find_stalled limit now stopping [] = none
find_stalled limit now stopping (d ∷ ds) =
    let rest = find_stalled limit now stopping ds in
    if stopping d.name then none else if is_stalled limit now d then some d else rest

-- `WHERE state = 'started' AND worker_id = worker_uuid`
abbrev pub is_in_flight : ℕ → Job → Bool
is_in_flight worker r = is_started r.state && is_key r.worker_id worker

unfoldable pub stamp_stalled : Diagnosis → Job → Job
stamp_stalled reason r = record r { exc_info = append_diagnosis r.exc_info reason }

unfoldable pub stamp_one_db : Diagnosis → Served → Served
stamp_one_db reason d =
    if d.reachable
    then record d { jobs = update_if (is_in_flight d.worker_uuid) (stamp_stalled reason) d.jobs }
    else d

-- The reason for a database, where the one that stalled is named.
abbrev pub stall_reason : ℕ → String → ℕ → Served → Diagnosis
stall_reason limit stalled age d =
    if str_eq d.name stalled then worker_stalled age limit else stalled_beside age limit

unfoldable pub stamp_stalled_jobs : ℕ → String → ℕ → List Served → List Served
stamp_stalled_jobs limit stalled age ds =
    map (λ d. stamp_one_db (stall_reason limit stalled age d) d) ds

-- The process goes on, or exits after the stamps.
pub data Watched : Type 0 where
  goes_on : Watched
  exits : List Served → Watched

abbrev pub terminate : ℕ → ℕ → List Served → Option Served → Watched
terminate limit now ds none = goes_on
terminate limit now ds (some d) = exits (stamp_stalled_jobs limit d.name (now - d.last_progress) ds)

-- A limit of 0 turns the watchdog off.
unfoldable pub check_worker_progress : ℕ → ℕ → (String → Bool) → List Served → Watched
check_worker_progress limit now stopping ds =
    if limit == 0 then goes_on else terminate limit now ds (find_stalled limit now stopping ds)

get_elem?-map :
    (f : Served → Served) (ds : List Served) (i : ℕ) (d : Served)
    → get_elem? ds i ≡ some d
    → get_elem? (map f ds) i ≡ some (f d)
get_elem?-map f [] i d e = cc
get_elem?-map f (x ∷ ds) zero d e = ap (λ x. some (f x)) (some-injective _ _ e)
get_elem?-map f (x ∷ ds) (suc i) d e = get_elem?-map f ds i d e

-- The database at a place has a live worker that made no progress for longer than the limit.
abbrev pub IsStalledAt : ℕ → ℕ → List Served → ℕ → Served → Type 0
IsStalledAt limit now ds j d =
    (get_elem? ds j ≡ some d) × (d.alive ≡ true) × (limit < now - d.last_progress)

find_stalled-some :
    (limit now : ℕ) (stopping : String → Bool) (ds : List Served) (d : Served)
    → find_stalled limit now stopping ds ≡ some d
    → (j : ℕ) × IsStalledAt limit now ds j d
unfolding find_stalled
find_stalled-some limit now stopping [] d e = cc
find_stalled-some limit now stopping (x ∷ ds) d e = elim (Bool-cases (stopping x.name)) [
  | inl stop ↦ let never : none ≡ some d = rw stop at e in cc
  | inr on ↦ elim (Bool-cases (is_stalled limit now x)) [
    | inl stalled ↦
        let same : x ≡ d = some-injective x d (rw (on, stalled) at e) in
        let (lives, stuck) =
          subst (λ (y : Served). (y.alive ≡ true) × (limit < now - y.last_progress)) same
            (ground arith, ground arith) in
        (0, (ap some same, lives, stuck))
    | inr moves ↦
        let (j, stuck) = find_stalled-some limit now stopping ds d (rw (on, moves) at e) in
        (suc j, stuck)
  ]
]

exits-eq :
    (o : Option Served) (limit now : ℕ) (ds after : List Served)
    → terminate limit now ds o ≡ exits after
    → (d : Served) × (o ≡ some d)
      × (after ≡ stamp_stalled_jobs limit d.name (now - d.last_progress) ds)
exits-eq none limit now ds after e = cc
exits-eq (some d) limit now ds after e = (d, refl, ground arith)

-- What a line on a stall says: of the worker of a database with the name of the one that stalled,
-- that it stalled, and of any other that it ran beside it.
abbrev pub Names : ℕ → ℕ → String → String → Diagnosis → Type 0
Names limit age stalled name reason =
    ((str_eq name stalled ≡ true) × (reason ≡ worker_stalled age limit))
    ⊎ ((str_eq name stalled ≡ false) × (reason ≡ stalled_beside age limit))

stall_reason-Names :
    (limit : ℕ) (stalled : String) (age : ℕ) (d : Served)
    → Names limit age stalled d.name (stall_reason limit stalled age d)
stall_reason-Names limit stalled age d = elim (Bool-cases (str_eq d.name stalled)) [
  | inl own ↦ inl (own, rw own refl)
  | inr other ↦ inr (other, rw other refl)
]

-- When the watchdog exits the process, there is a database whose worker is alive and made its last
-- progress longer ago than the limit; and a job in flight under a worker of the process, whichever
-- database it is of, if that answers, keeps its columns but for `exc_info`, where a line on the stall
-- follows what stood there. The line gives the time since that last progress, and the limit; it says
-- that the job's worker stalled if the job's database has the name of the stalled one, and that
-- another did if not. A later reclaim that gives the job up adds its own line behind this one.
pub stalled_jobs_are_named :
    (limit now : ℕ) (stopping : String → Bool) (ds after : List Served) (i k : ℕ) (d d' : Served)
    (r r' : Job)
    → check_worker_progress limit now stopping ds ≡ exits after
    → get_elem? ds i ≡ some d
    → get_elem? after i ≡ some d'
    → d.reachable ≡ true
    → get_elem? d.jobs k ≡ some r
    → get_elem? d'.jobs k ≡ some r'
    → is_in_flight d.worker_uuid r ≡ true
    → (j : ℕ) × (stalled : Served) × (reason : Diagnosis) × IsStalledAt limit now ds j stalled
      × Names limit (now - stalled.last_progress) stalled.name d.name reason
      × (r' ≡ record r { exc_info = append_diagnosis r.exc_info reason })
      × ((later attempts : ℕ)
          → (give_up later attempts r').exc_info
            ≡ append_diagnosis (append_diagnosis r.exc_info reason) worker_died)
unfolding check_worker_progress stamp_stalled_jobs stamp_one_db stamp_stalled give_up
stalled_jobs_are_named limit now stopping ds after i k d d' r r' e at_d at_d' up at_r at_r' flies =
    elim (Bool-cases (limit == 0)) [
      | inl off ↦ let never : goes_on ≡ exits after = rw off at e in cc
      | inr on ↦
          let (stalled, found, stamped) =
            exits-eq (find_stalled limit now stopping ds) limit now ds after (rw on at e) in
          let age = now - stalled.last_progress in
          let reason = stall_reason limit stalled.name age d in
          let changed : stamp_one_db reason d ≡ d' = some-injective _ _ (
            sym (
              get_elem?-map (λ d. stamp_one_db (stall_reason limit stalled.name age d) d) ds i d
                at_d)
            ∙ (rw stamped at at_d')) in
          let jobs : d'.jobs
              ≡ update_if (is_in_flight d.worker_uuid) (stamp_stalled reason) d.jobs =
            rw (sym changed, up) refl in
          let row : r' ≡ stamp_stalled reason r = some-injective _ _ (
            sym at_r'
            ∙ rw (
              jobs,
              get_elem?-update_if (is_in_flight d.worker_uuid) (stamp_stalled reason) d.jobs k r
                  at_r,
              flies,
            )) in
          let (j, stuck) = find_stalled-some limit now stopping ds stalled found in
          (
            j,
            stalled,
            reason,
            stuck,
            stall_reason-Names limit stalled.name age d,
            row,
            (λ later attempts. rw row refl),
          )
    ]
