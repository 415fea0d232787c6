-- ===== src/Samples/Jobs.antt =====
-- Runs of the queue and the worker.
use evidence_flow.Repositories.Documents.{get_document}
use evidence_flow.Prelude.{
  ℕ, ◌≡◌, ◌≢◌, refl, arith, ==_iff, nat_eq, list_eq, false, Option, none, some, List, [], ◌∷◌, Text,
  codes, ok, list_beq,
}
use evidence_flow.Domain.Failures.{Error, crm_unavailable, document_gone, is_transient}
use evidence_flow.Repositories.Models.{Job, JobType, JobStatus, permanent, Db, empty_db}
use evidence_flow.Workflows.Queue.{claim_ids, claimed_by, claim, reclaim_expired, fail}
use evidence_flow.Workflows.Queue.Leases.{DistinctJobs}
use evidence_flow.Workflows.Queue.Leases.Held.{
  Turn, claims, reclaims, AreBefore, IsHeld, claim-IsHeld,
}
use evidence_flow.Workflows.Queue.Retries.{rounds, rounds_end}
use evidence_flow.Workflows.Worker.{Worker, run_once, drain}
use evidence_flow.Workflows.Worker.Drained.{Stops, drain-Stops}
use evidence_flow.Workflows.Worker.Settled.{IsSettled, run_once-IsSettled}
use evidence_flow.Samples.World.{env, intake}

abbrev job_of : Text → Job
job_of id = record {
  id = id;
  type = JobType.extract;
  document_id = codes "gone";
  status = JobStatus.pending;
  attempts = 0;
  max_attempts = 4;
  run_at = 1;
  lease_expires_at = none;
  locked_by = none;
  failure_kind = none;
  last_error = none;
  created_at = 1;
  updated_at = 1;
}

abbrev jobs_db : Db
jobs_db = record empty_db { draws = 5; jobs = job_of (codes "j") ∷ job_of (codes "k") ∷ [] }

jobs_distinct : DistinctJobs jobs_db
unfolding list_beq
jobs_distinct =
    let differ : codes "j" ≢ codes "k" =
      λ e. let test = (==_iff (codes "j") (codes "k")).1 e in cc in
    ((differ, tt), (tt, tt))

abbrev first_claim : Option Job × Db
first_claim = claim_ids (codes "w") 10 5 (codes "j" ∷ []) jobs_db

abbrev first_job : Job
first_job = claimed_by (codes "w") 10 5 (job_of (codes "j"))

-- The claim of a worker, and the turns of others while its lease runs.
abbrev held_claim : Option Job × Db
held_claim = claim env (codes "w") 10 jobs_db

abbrev turns : List Turn
turns = claims (codes "v") 3 ∷ reclaims ∷ claims (codes "u") 5 ∷ []

held_claimed : held_claim.0 ≡ some first_job
unfolding claim claim_ids list_beq
held_claimed = refl

turns-AreBefore : AreBefore env 15 turns held_claim.1
unfolding claim claim_ids list_beq reclaim_expired
turns-AreBefore = (omega arith, (omega arith, (omega arith, tt)))

claim-IsHeld_example : IsHeld env first_job turns held_claim.1
claim-IsHeld_example =
    claim-IsHeld env (codes "w") 10 turns jobs_db first_job jobs_distinct held_claimed
      turns-AreBefore

abbrev outages : List (ℕ × Error)
outages =
    (10, crm_unavailable (codes "a"))
    ∷ (20, crm_unavailable (codes "b"))
    ∷ (30, crm_unavailable (codes "c"))
    ∷ (40, crm_unavailable (codes "d"))
    ∷ []

rounds_end_example : (rounds (codes "w") 10 outages (job_of (codes "j"))).status ≡ JobStatus.failed
rounds_end_example =
    rounds_end (codes "w") 10 outages (job_of (codes "j")) refl (omega arith) (omega arith)

abbrev worker : Worker
worker = record {
  intake = intake;
  crm = none;
  worker_id = codes "w";
  lease = 10;
  allow_value_fallback = false;
}

abbrev given_up : Job
given_up = record (job_of (codes "j")) {
  status = JobStatus.failed;
  attempts = 1;
  failure_kind = some permanent;
  last_error = some (document_gone (codes "gone"));
  updated_at = 7;
}

ran_once : (run_once env none worker jobs_db).0 ≡ ok (some given_up)
unfolding run_once claim reclaim_expired list_beq get_document fail is_transient
ran_once = refl

run_once-IsSettled_example : IsSettled given_up (run_once env none worker jobs_db).1
run_once-IsSettled_example = run_once-IsSettled env none worker jobs_db given_up ran_once

drain-Stops_example : Stops env worker 3 (drain env none worker 3 jobs_db)
drain-Stops_example = drain-Stops env none worker 3 jobs_db

-- Before the jobs are due.
abbrev early_db : Db
early_db = record jobs_db { draws = 0 }
