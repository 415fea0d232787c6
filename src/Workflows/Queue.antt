-- ===== src/Workflows/Queue.antt =====
-- app/workflows/queue.py: the queue of jobs in the database. The statement of `claim` runs for one
-- identifier after another, on the database as it is then. On PostgreSQL the query skips locked rows,
-- which leaves out identifiers.
pub mod Leases
pub mod Retries
use evidence_flow.Prelude.{
  ℕ, suc, ◌+◌, Bool, true, false, ◌&&◌, ◌||◌, not, Option, none, some, List, [], ◌∷◌, ◌++◌, Text,
  ltb, leb, nat_beq, ◌==◌, nat_eq, list_eq, find, filter, take, length, map, if◌then◌else◌,
}
use evidence_flow.Domain.Failures.{Error, is_transient, backoff, default_base_backoff}
use evidence_flow.Repositories.Models.{
  Job, JobType, JobStatus, FailureKind, transient_exhausted, permanent, Env, Db,
}
use evidence_flow.Repositories.Documents.{update_where, tick}

-- `job.status in (PENDING, RUNNING)`
abbrev pub is_open : JobStatus → Bool
is_open JobStatus.pending = true
is_open JobStatus.running = true
is_open JobStatus.succeeded = false
is_open JobStatus.failed = false

abbrev pub is_running : JobStatus → Bool
is_running JobStatus.running = true
is_running _ = false

abbrev is_failed : JobStatus → Bool
is_failed JobStatus.failed = true
is_failed _ = false

-- `lease_expires_at <= moment`, which does not hold of NULL.
abbrev pub lapsed : ℕ → Option ℕ → Bool
lapsed moment none = false
lapsed moment (some expiry) = leb expiry moment

-- `lease_expires_at IS NULL OR lease_expires_at <= moment`
abbrev pub is_free : ℕ → Option ℕ → Bool
is_free moment none = true
is_free moment (some expiry) = leb expiry moment

unfoldable pub get_job : Text → Db → Option Job
get_job job_id db = find (λ j. j.id == job_id) db.jobs

unfoldable pub set_job : Text → (Job → Job) → Db → Db
set_job job_id change db = record db { jobs = update_where (λ j. j.id == job_id) change db.jobs }

-- The row that `enqueue` adds: its defaults draw the two times one after the other.
abbrev new_job : Env → JobType → Text → ℕ → ℕ → Db → Job
new_job env type document_id run_at max_attempts db = record {
  id = env.uuid db.draws;
  type = type;
  document_id = document_id;
  status = JobStatus.pending;
  attempts = 0;
  max_attempts = max_attempts;
  run_at = run_at;
  lease_expires_at = none;
  locked_by = none;
  failure_kind = none;
  last_error = none;
  created_at = env.clock db.draws;
  updated_at = env.clock (suc db.draws);
}

abbrev add_job : Env → JobType → Text → ℕ → ℕ → Db → Job × Db
add_job env type document_id run_at max_attempts db =
    let job = new_job env type document_id run_at max_attempts db in
    (job, record db { draws = suc (suc db.draws); jobs = db.jobs ++ job ∷ [] })

unfoldable pub enqueue : Env → JobType → Text → Option ℕ → ℕ → Db → Job × Db
enqueue env type document_id none max_attempts db =
    add_job env type document_id (env.clock db.draws) max_attempts (tick db)
enqueue env type document_id (some run_at) max_attempts db =
    add_job env type document_id run_at max_attempts db

-- The conditions of the query for claimable jobs.
abbrev pub is_due : ℕ → Job → Bool
is_due moment j = is_open j.status && leb j.run_at moment && is_free moment j.lease_expires_at

-- `ORDER BY run_at, created_at`
abbrev runs_before : Job → Job → Bool
runs_before a b =
    ltb a.run_at b.run_at || (nat_beq a.run_at b.run_at && leb a.created_at b.created_at)

insert_job : Job → List Job → List Job
insert_job j [] = j ∷ []
insert_job j (k ∷ ks) =
    let rest = insert_job j ks in if runs_before j k then j ∷ k ∷ ks else k ∷ rest

sort_jobs : List Job → List Job
unfolding insert_job
sort_jobs [] = []
sort_jobs (j ∷ js) = insert_job j (sort_jobs js)

abbrev claim_batch : ℕ
claim_batch = 10

unfoldable pub claimable_ids : ℕ → Db → List Text
unfolding sort_jobs
claimable_ids moment db =
    map (λ (j : Job). j.id) (take claim_batch (sort_jobs (filter (is_due moment) db.jobs)))

-- The conditions of the UPDATE of `claim`, and its values.
abbrev pub is_claimable : Text → ℕ → Job → Bool
is_claimable job_id moment j =
    j.id == job_id && is_open j.status && is_free moment j.lease_expires_at

abbrev pub claimed_by : Text → ℕ → ℕ → Job → Job
claimed_by worker_id lease moment j = record j {
  status = JobStatus.running;
  locked_by = some worker_id;
  lease_expires_at = some (moment + lease);
  attempts = j.attempts + 1;
  updated_at = moment;
}

unfoldable pub claim_update : Text → ℕ → ℕ → Text → Db → Db
claim_update worker_id lease moment job_id db = record db {
  jobs = update_where (is_claimable job_id moment) (claimed_by worker_id lease moment) db.jobs;
}

-- The loop of `claim` over the identifiers.
unfoldable pub claim_ids : Text → ℕ → ℕ → List Text → Db → Option Job × Db
unfolding claim_update get_job
claim_ids worker_id lease moment [] db = (none, db)
claim_ids worker_id lease moment (job_id ∷ ids) db =
    let updated = claim_update worker_id lease moment job_id db in
    let rest = claim_ids worker_id lease moment ids updated in
    if nat_beq (length (filter (is_claimable job_id moment) db.jobs)) 1
    then (get_job job_id updated, updated)
    else rest

unfoldable pub claim : Env → Text → ℕ → Db → Option Job × Db
unfolding claim_ids claimable_ids
claim env worker_id lease db =
    let moment = env.clock db.draws in
    claim_ids worker_id lease moment (claimable_ids moment db) (tick db)

abbrev pub succeeded_job : ℕ → Job → Job
succeeded_job moment j = record j {
  status = JobStatus.succeeded;
  lease_expires_at = none;
  locked_by = none;
  last_error = none;
  updated_at = moment;
}

unfoldable pub succeed : Env → Job → Db → Db
unfolding set_job
succeed env job db = set_job job.id (succeeded_job (env.clock db.draws)) (tick db)

-- The three branches of `fail`.
unfoldable pub route_failure : ℕ → Error → Job → Job
route_failure moment error j =
    if not (is_transient error)
    then record j { status = JobStatus.failed; failure_kind = some permanent }
    else if leb j.max_attempts j.attempts
    then record j { status = JobStatus.failed; failure_kind = some transient_exhausted }
    else record j {
      status = JobStatus.pending;
      run_at = moment + backoff j.attempts default_base_backoff;
    }

abbrev pub failed_job : ℕ → Error → Job → Job
failed_job moment error j = route_failure moment error (record j {
  last_error = some error;
  lease_expires_at = none;
  locked_by = none;
  updated_at = moment;
})

unfoldable pub fail : Env → Job → Error → Db → Db
unfolding set_job route_failure
fail env job error db = set_job job.id (failed_job (env.clock db.draws) error) (tick db)

abbrev is_abandoned : ℕ → Job → Bool
is_abandoned moment j = is_running j.status && lapsed moment j.lease_expires_at

abbrev pub reclaimed : ℕ → Job → Job
reclaimed moment j = record j {
  status = JobStatus.pending;
  locked_by = none;
  lease_expires_at = none;
  updated_at = moment;
}

unfoldable pub reclaim_expired : Env → Db → ℕ × Db
reclaim_expired env db =
    let moment = env.clock db.draws in
    (
      length (filter (is_abandoned moment) db.jobs),
      record db {
        draws = suc db.draws;
        jobs = update_where (is_abandoned moment) (reclaimed moment) db.jobs;
      },
    )

insert_latest : Job → List Job → List Job
insert_latest j [] = j ∷ []
insert_latest j (k ∷ ks) =
    let rest = insert_latest j ks in if leb k.updated_at j.updated_at then j ∷ k ∷ ks else k ∷ rest

sort_latest : List Job → List Job
unfolding insert_latest
sort_latest [] = []
sort_latest (j ∷ js) = insert_latest j (sort_latest js)

unfoldable pub review_queue : Db → List Job
unfolding sort_latest
review_queue db = sort_latest (filter (λ j. is_failed j.status) db.jobs)

unfoldable pub lease_is_live : Env → Job → Db → Bool
lease_is_live env job db = not (is_free (env.clock db.draws) job.lease_expires_at)
