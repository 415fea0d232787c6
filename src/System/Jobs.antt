-- ===== src/System/Jobs.antt =====
-- The owners and the leases of the jobs, after the transactions of the whole program.
use evidence_flow.Prelude.{
  ◌≡◌, refl, Bool, true, All, All-append, Option, none, some, List, Text, ℕ, ◌+◌, leb, ◌==◌, nat_eq,
  list_eq, Bool-cases, inl, inr, arith,
}
use evidence_flow.Domain.Failures.{Error, is_transient}
use evidence_flow.Repositories.Models.{Job, JobType, JobStatus, Env, Db}
use evidence_flow.Repositories.Documents.{
  append_event, create_document, create_approval, set_document, set_write, mark_written,
  update_where,
}
use evidence_flow.Repositories.Documents.Rows.{All-update_where}
use evidence_flow.Workflows.Queue.{
  enqueue, is_claimable, claimed_by, claim_update, reclaim_expired, reclaimed, succeed, fail,
  succeeded_job, failed_job, route_failure, set_job,
}
use evidence_flow.System.{Deployment, Action, perform_all}
use evidence_flow.System.Invariant.{IsInvariant}
use evidence_flow.System.Transactions.{perform_all-P}

-- Of a job's status, owner and lease, its attempts and the time at which it runs.
abbrev pub IsHeld : JobStatus → Option Text → Option ℕ → ℕ → Type 0
IsHeld JobStatus.running owner lease attempts =
    ((worker_id : Text) × (owner ≡ some worker_id))
    × (((expiry : ℕ) × (lease ≡ some expiry)) × (leb 1 attempts ≡ true))
IsHeld _ owner lease attempts = (owner ≡ none) × (lease ≡ none)

abbrev pub IsOrderly : Job → Type 0
IsOrderly j = IsHeld j.status j.locked_by j.lease_expires_at j.attempts

abbrev pub AreOrderly : Db → Type 0
AreOrderly db = All IsOrderly db.jobs

enqueue-AreOrderly :
    (env : Env) (type : JobType) (document_id : Text) (run_at : Option ℕ) (max_attempts : ℕ)
    (db : Db)
    → AreOrderly db
    → AreOrderly (enqueue env type document_id run_at max_attempts db).1
unfolding enqueue
enqueue-AreOrderly env type document_id none max_attempts db h =
    All-append IsOrderly db.jobs _ h ((refl, refl), tt)
enqueue-AreOrderly env type document_id (some moment) max_attempts db h =
    All-append IsOrderly db.jobs _ h ((refl, refl), tt)

one_attempt : (n : ℕ) → leb 1 (n + 1) ≡ true
one_attempt n = ground arith

-- A failure ends the lease on each of its branches.
route_failure-IsOrderly :
    (moment : ℕ) (e : Error) (j : Job)
    → j.locked_by ≡ none
    → j.lease_expires_at ≡ none
    → IsOrderly (route_failure moment e j)
unfolding route_failure
route_failure-IsOrderly moment e j free idle = elim (Bool-cases (is_transient e)) [
  | inr permanent_error ↦ rw permanent_error (free, idle)
  | inl transient ↦ elim (Bool-cases (leb j.max_attempts j.attempts)) [
    | inl exhausted ↦ rw (transient, exhausted) (free, idle)
    | inr left ↦ rw (transient, left) (free, idle)
  ]
]

failed_job-IsOrderly : (moment : ℕ) (e : Error) (j : Job) → IsOrderly (failed_job moment e j)
failed_job-IsOrderly moment e j =
    let ended : Job = record j {
      last_error = some e;
      lease_expires_at = none;
      locked_by = none;
      updated_at = moment;
    } in
    route_failure-IsOrderly moment e ended refl refl

change-AreOrderly :
    (test : Job → Bool) (change : Job → Job)
    → ((j : Job) → IsOrderly (change j))
    → (jobs : List Job) → All IsOrderly jobs
    → All IsOrderly (update_where test change jobs)
change-AreOrderly test change orderly jobs =
    All-update_where IsOrderly IsOrderly test change (λ j h. h) (λ j hit h. orderly j) jobs

AreOrderly-IsInvariant : (env : Env) → IsInvariant env AreOrderly
unfolding append_event create_document create_approval set_document set_write mark_written
    claim_update reclaim_expired succeed fail set_job
AreOrderly-IsInvariant env = record {
  draws = λ n db h. h;
  event = λ document_id extraction_id type actor payload db h. h;
  document = λ filename text id db h. h;
  extraction = λ x db hashed h. h;
  validation = λ row db h. h;
  status = λ id next db undecided h. h;
  revocation = λ id db h. h;
  grant = λ id extraction_id hash actor expires_at db h. h;
  write_claim = λ w db h. h;
  write_change = λ id change db h. h;
  landing = λ row db apart backed h. h;
  completion = λ id hash db recorded h. h;
  job = enqueue-AreOrderly env;
  lease = λ worker_id lease moment job_id db.
      change-AreOrderly (is_claimable job_id moment) (claimed_by worker_id lease moment)
        (λ j. ((worker_id, refl), ((moment + lease, refl), one_attempt j.attempts))) db.jobs;
  reclaim = λ db. change-AreOrderly _ (reclaimed (env.clock db.draws)) (λ j. (refl, refl)) db.jobs;
  success = λ job db.
      change-AreOrderly (λ j. j.id == job.id) (succeeded_job (env.clock db.draws))
        (λ j. (refl, refl)) db.jobs;
  failure = λ job error db.
      change-AreOrderly (λ j. j.id == job.id) (failed_job (env.clock db.draws) error)
        (λ j. failed_job-IsOrderly (env.clock db.draws) error j) db.jobs;
}

-- After any requests, starts and sessions of workers, in any order, if that held before: a job that is
-- running has an owner, a lease and an attempt at least, and any other job has neither owner nor lease.
pub perform_all-AreOrderly :
    (d : Deployment) (actions : List Action) (db : Db)
    → AreOrderly db
    → AreOrderly (perform_all d actions db)
perform_all-AreOrderly d = perform_all-P d AreOrderly (AreOrderly-IsInvariant d.env)
