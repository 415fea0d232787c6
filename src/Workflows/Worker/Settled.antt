-- ===== src/Workflows/Worker/Settled.antt =====
-- A job that a worker has processed is let go of.
use evidence_flow.Prelude.{
  ℕ, ◌≡◌, refl, sym, subst, ap, ◌∙◌, true, false, Option, none, some, List, [], ◌∷◌, Text, ◌==◌,
  ==_iff, nat_eq, list_eq, find, find-test, map, leb, Result, ok, Bool-cases, inl, inr,
  if◌then◌else◌, some_injective,
}
use evidence_flow.Domain.Failures.{Error, is_transient}
use evidence_flow.Repositories.Models.{Job, Env, Db}
use evidence_flow.Repositories.Documents.{tick}
use evidence_flow.Workflows.Queue.{
  is_running, get_job, set_job, succeed, fail, succeeded_job, failed_job, route_failure,
}
use evidence_flow.Workflows.Worker.{
  Worker, settle, finish_found, finish_job, dispatch_job, run_found, run_claimed, run_once,
  claim_job,
}

-- Nothing holds the job.
pub record IsLetGo (job : Job) : Type 0 where
  pub stopped : is_running job.status ≡ false
  pub unleased : job.lease_expires_at ≡ none
  pub unlocked : job.locked_by ≡ none

-- The job is stored as it is, and nothing holds it.
pub record IsSettled (job : Job) (after : Db) : Type 0 where
  pub row : get_job job.id after ≡ some job
  pub let_go : IsLetGo job

failed_job-IsLetGo : (moment : ℕ) (error : Error) (j : Job) → IsLetGo (failed_job moment error j)
unfolding route_failure
failed_job-IsLetGo moment error j = elim (Bool-cases (is_transient error)) [
  | inr lasting ↦ rw lasting (record { stopped = refl; unleased = refl; unlocked = refl })
  | inl passing ↦ elim (Bool-cases (leb j.max_attempts j.attempts)) [
    | inl spent ↦ rw (passing, spent) (record { stopped = refl; unleased = refl; unlocked = refl })
    | inr left ↦ rw (passing, left) (record { stopped = refl; unleased = refl; unlocked = refl })
  ]
]

pub failed_job-id : (moment : ℕ) (error : Error) (j : Job) → (failed_job moment error j).id ≡ j.id
unfolding route_failure
failed_job-id moment error j = elim (Bool-cases (is_transient error)) [
  | inr lasting ↦ rw lasting refl
  | inl passing ↦ elim (Bool-cases (leb j.max_attempts j.attempts)) [
    | inl spent ↦ rw (passing, spent) refl
    | inr left ↦ rw (passing, left) refl
  ]
]

-- The row of the job after an assignment.
module _ (k : Text) (change : Job → Job) (same : (j : Job) → (change j).id ≡ j.id) where
  find_changed :
      (rows : List Job) (j : Job)
      → find (λ j. j.id == k) rows ≡ some j
      → find (λ j. j.id == k) (map (λ j. if j.id == k then change j else j) rows) ≡ some (change j)
  find_changed [] j e = absurd (cc)
  find_changed (r ∷ rows) j e = elim (Bool-cases (r.id == k)) [
    | inl hit ↦
        let found : r ≡ j = some_injective (rw hit at e) in
        let kept : ((change r).id == k) ≡ true =
          (==_iff (change r).id k).1 (same r ∙ (==_iff r.id k).0 hit) in
        rw hit (rw kept (ap (λ j. some (change j)) found))
    | inr miss ↦ rw miss (rw miss (find_changed rows j (rw miss at e)))
  ]

  pub get-set_job :
      (db : Db) (j : Job)
      → get_job k db ≡ some j
      → get_job k (set_job k change db) ≡ some (change j)
  unfolding get_job set_job
  get-set_job db j e = find_changed db.jobs j e

set_job-IsSettled :
    (change : Job → Job) (same : (j : Job) → (change j).id ≡ j.id)
    (let_go : (j : Job) → IsLetGo (change j)) (db : Db) (j job : Job)
    → get_job j.id db ≡ some j
    → get_job j.id (set_job j.id change db) ≡ some job
    → IsSettled job (set_job j.id change db)
set_job-IsSettled change same let_go db j job e h =
    let is_changed : change j ≡ job =
      some_injective (sym (get-set_job j.id change same db j e) ∙ h) in
    record {
      row =
          ap (λ i. get_job i (set_job j.id change db))
            (sym (ap (λ (j : Job). j.id) is_changed) ∙ same j)
          ∙ h;
      let_go = subst IsLetGo is_changed (let_go j);
    }

settle-IsSettled :
    (env : Env) (error : Option Error) (db : Db) (j job : Job)
    → get_job j.id db ≡ some j
    → get_job j.id (settle env error j db) ≡ some job
    → IsSettled job (settle env error j db)
unfolding succeed fail get_job
settle-IsSettled env none db j job e h =
    set_job-IsSettled (succeeded_job (env.clock db.draws)) (λ k. refl)
      (λ k. record { stopped = refl; unleased = refl; unlocked = refl }) (tick db) j job e h
settle-IsSettled env (some error) db j job e h =
    set_job-IsSettled (failed_job (env.clock db.draws) error)
      (failed_job-id (env.clock db.draws) error) (failed_job-IsLetGo (env.clock db.draws) error)
      (tick db) j job e h

ok_some :
    {a : Option Job} {job : Job}
    → ◌≡◌ {A = Result Error (Option Job)} (ok a) (ok (some job))
    → a ≡ some job
ok_some h = cc

finish_found-IsSettled :
    (env : Env) (job_id : Text) (error : Option Error) (found : Option Job) (db : Db) (job : Job)
    → get_job job_id db ≡ found
    → (finish_found env error found db).0 ≡ ok (some job)
    → IsSettled job (finish_found env error found db).1
unfolding finish_found
finish_found-IsSettled env job_id error none db job e h = absurd (cc)
finish_found-IsSettled env job_id error (some j) db job e h =
    let hit : j.id ≡ job_id =
      (==_iff j.id job_id).0 (find-test (λ j. j.id == job_id) db.jobs j (unfold get_job in e)) in
    settle-IsSettled env error db j job (ap (λ i. get_job i db) hit ∙ e) (ok_some h)

finish_job-IsSettled :
    (env : Env) (job_id : Text) (ran : Option Error × Db) (job : Job)
    → (finish_job env job_id ran).0 ≡ ok (some job)
    → IsSettled job (finish_job env job_id ran).1
unfolding finish_job
finish_job-IsSettled env job_id (error, db) job h =
    finish_found-IsSettled env job_id error (get_job job_id db) db job refl h

run_found-IsSettled :
    (env : Env) (conflict : Option Db) (worker : Worker) (job_id : Text) (found : Option Job)
    (db : Db) (job : Job)
    → (run_found env conflict worker job_id found db).0 ≡ ok (some job)
    → IsSettled job (run_found env conflict worker job_id found db).1
unfolding run_found
run_found-IsSettled env conflict worker job_id none db job h = absurd (cc)
run_found-IsSettled env conflict worker job_id (some j) db job h =
    finish_job-IsSettled env job_id (dispatch_job env conflict worker j db) job h

run_claimed-IsSettled :
    (env : Env) (conflict : Option Db) (worker : Worker) (taken : Option Job × Db) (job : Job)
    → (run_claimed env conflict worker taken).0 ≡ ok (some job)
    → IsSettled job (run_claimed env conflict worker taken).1
unfolding run_claimed
run_claimed-IsSettled env conflict worker (none, db) job h = absurd (cc)
run_claimed-IsSettled env conflict worker (some j, db) job h =
    run_found-IsSettled env conflict worker j.id (get_job j.id db) db job h

-- Whatever came of it, a job that `run_once` returns is stored as returned, is not running, and has
-- neither a lease nor an owner.
pub run_once-IsSettled :
    (env : Env) (conflict : Option Db) (worker : Worker) (db : Db) (job : Job)
    → (run_once env conflict worker db).0 ≡ ok (some job)
    → IsSettled job (run_once env conflict worker db).1
unfolding run_once
run_once-IsSettled env conflict worker db job h =
    run_claimed-IsSettled env conflict worker (claim_job env worker db) job h
