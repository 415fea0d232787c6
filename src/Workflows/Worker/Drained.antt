-- ===== src/Workflows/Worker/Drained.antt =====
-- When `drain` stops.
use evidence_flow.Prelude.{
  ℕ, zero, suc, ◌<◌, ◌≡◌, refl, ap, ◌∙◌, ==_iff, nat_eq, list_eq, ◌==◌, find-test, Text, Option,
  none, some, ◌⊎◌, inl, inr, arith, Result, ok, err,
}
use evidence_flow.Domain.Failures.{Error}
use evidence_flow.Repositories.Models.{Job, Env, Db}
use evidence_flow.Repositories.Documents.{tick}
use evidence_flow.Workflows.Queue.{get_job, succeed, fail, succeeded_job, failed_job}
use evidence_flow.Workflows.Worker.Settled.{get-set_job, failed_job-id}
use evidence_flow.Workflows.Worker.{
  settle, finish_found, finish_job, dispatch_job, count_one, Worker, claim_job, run_found,
  run_claimed, run_once, drain, drain_next,
}

-- The last look for a job found none, and the database is as that look left it.
pub record IsIdle (env : Env) (worker : Worker) (after : Db) : Type 0 where
  pub before : Db
  pub found_none : (claim_job env worker before).0 ≡ none
  pub left : after ≡ (claim_job env worker before).1

-- How a count of jobs stands to the limit.
abbrev pub Stops : Env → Worker → ℕ → Result Error ℕ × Db → Type 0
Stops env worker limit (err e, after) = Unit {0}
Stops env worker limit (ok count, after) =
    (count ≡ limit) ⊎ ((count < limit) × IsIdle env worker after)

settle-row :
    (env : Env) (error : Option Error) (job : Job) (db : Db)
    → get_job job.id db ≡ some job
    → (stored : Job) × (get_job job.id (settle env error job db) ≡ some stored)
unfolding succeed fail
settle-row env none job db h = (
  _,
  get-set_job job.id (succeeded_job (env.clock db.draws)) (λ j. refl) (tick db) job
      (unfold get_job in h),
)
settle-row env (some error) job db h = (
  _,
  get-set_job job.id (failed_job (env.clock db.draws) error)
      (failed_job-id (env.clock db.draws) error) (tick db) job (unfold get_job in h),
)

-- A job that was settled is returned.
finish_found_returns :
    (env : Env) (error : Option Error) (job_id : Text) (found : Option Job) (db : Db)
    → get_job job_id db ≡ found
    → ¬ ((finish_found env error found db).0 ≡ ok none)
unfolding finish_found
finish_found_returns env error job_id none db e h = cc
finish_found_returns env error job_id (some job) db e h =
    let hit : job.id ≡ job_id =
      (==_iff job.id job_id).0
        (find-test (λ j. j.id == job_id) db.jobs job (unfold get_job in e)) in
    let (stored, row) = settle-row env error job db (ap (λ i. get_job i db) hit ∙ e) in
    let g = rw row at h in cc

run_found_returns :
    (env : Env) (conflict : Option Db) (worker : Worker) (job_id : Text) (found : Option Job)
    (db : Db)
    → ¬ ((run_found env conflict worker job_id found db).0 ≡ ok none)
unfolding run_found finish_job
run_found_returns env conflict worker job_id none db h = cc
run_found_returns env conflict worker job_id (some job) db h =
    let (error, after) = dispatch_job env conflict worker job db in
    finish_found_returns env error job_id (get_job job_id after) after refl h

run_claimed-none :
    (env : Env) (conflict : Option Db) (worker : Worker) (claimed : Option Job × Db)
    → (run_claimed env conflict worker claimed).0 ≡ ok none
    → (claimed.0 ≡ none) × ((run_claimed env conflict worker claimed).1 ≡ claimed.1)
unfolding run_claimed
run_claimed-none env conflict worker (none, db) h = (refl, refl)
run_claimed-none env conflict worker (some job, db) h =
    absurd (run_found_returns env conflict worker job.id (get_job job.id db) db h)

count-Stops :
    (env : Env) (worker : Worker) (limit : ℕ) (answer : Result Error ℕ) (after : Db)
    → Stops env worker limit (answer, after)
    → Stops env worker (suc limit) (count_one answer, after)
count-Stops env worker limit (err e) after h = tt
count-Stops env worker limit (ok count) after h = elim h [
  | inl full ↦ inl (ap suc full)
  | inr idle ↦ inr (omega (arith, idle.0), idle.1)
]

drain_next-Stops :
    (env : Env) (worker : Worker) (limit : ℕ) (again : Db → Result Error ℕ × Db)
    → ((db : Db) → Stops env worker limit (again db))
    → (ran : Result Error (Option Job) × Db) → (ran.0 ≡ ok none → IsIdle env worker ran.1)
    → Stops env worker (suc limit) (drain_next again ran)
unfolding drain_next
drain_next-Stops env worker limit again ih (ok none, db) idle = inr (omega arith, idle refl)
drain_next-Stops env worker limit again ih (ok (some job), db) idle =
    count-Stops env worker limit (again db).0 (again db).1 (ih db)
drain_next-Stops env worker limit again ih (err e, db) idle = tt

-- If `drain` returns a count, it is the limit, or it is less, and then the last look for a job found
-- none, and the database is as that look left it.
pub drain-Stops :
    (env : Env) (conflict : Option Db) (worker : Worker) (limit : ℕ) (db : Db)
    → Stops env worker limit (drain env conflict worker limit db)
unfolding drain run_once
drain-Stops env conflict worker zero db = inl refl
drain-Stops env conflict worker (suc limit) db =
    drain_next-Stops env worker limit (drain env conflict worker limit)
      (drain-Stops env conflict worker limit) (run_once env conflict worker db)
      (λ h.
        let (found_none, left) = run_claimed-none env conflict worker (claim_job env worker db) h in
        record { before = db; found_none = found_none; left = left })
