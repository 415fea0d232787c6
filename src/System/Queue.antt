-- ===== src/System/Queue.antt =====
-- The sessions in which a worker claims and settles a job keep what the changes of the tables keep.
use evidence_flow.Prelude.{
  ℕ, suc, Option, none, some, List, [], ◌∷◌, Text, nat_beq, length, filter, Bool-cases, inl, inr,
}
use evidence_flow.Domain.Failures.{Error}
use evidence_flow.Repositories.Models.{Job, Env, Db}
use evidence_flow.Repositories.Documents.{tick}
use evidence_flow.Workflows.Queue.{
  is_claimable, get_job, claim_update, claim_ids, claimable_ids, claim, reclaim_expired,
}
use evidence_flow.Workflows.Worker.{Worker, claim_job, settle, finish_found, finish_job}
use evidence_flow.System.Invariant.{IsInvariant}

module _ (env : Env) (P : Db → Type 0) (inv : IsInvariant env P) where
  claim_ids-P :
      (worker_id : Text) (lease moment : ℕ) (ids : List Text) (db : Db)
      → P db
      → P (claim_ids worker_id lease moment ids db).1
  unfolding claim_ids
  claim_ids-P worker_id lease moment [] db h = h
  claim_ids-P worker_id lease moment (job_id ∷ ids) db h =
      let updated = inv.lease worker_id lease moment job_id db h in
      elim (Bool-cases (nat_beq (length (filter (is_claimable job_id moment) db.jobs)) 1)) [
        | inl taken ↦ rw taken updated
        | inr missed ↦ rw missed (
            claim_ids-P worker_id lease moment ids (claim_update worker_id lease moment job_id db)
              updated)
      ]

  pub claim_job-P : (worker : Worker) (db : Db) → P db → P (claim_job env worker db).1
  unfolding claim_job claim
  claim_job-P worker db h =
      let ready = (reclaim_expired env db).1 in
      let moment = env.clock ready.draws in
      claim_ids-P worker.worker_id worker.lease moment (claimable_ids moment ready) (tick ready)
        (inv.draws (suc ready.draws) ready (inv.reclaim db h))

  settle-P : (e : Option Error) (job : Job) (db : Db) → P db → P (settle env e job db)
  settle-P none job db h = inv.success job db h
  settle-P (some e) job db h = inv.failure job e db h

  finish_found-P :
      (e : Option Error) (job : Option Job) (db : Db) → P db → P (finish_found env e job db).1
  unfolding finish_found
  finish_found-P e none db h = h
  finish_found-P e (some job) db h = settle-P e job db h

  pub finish_job-P :
      (job_id : Text) (e : Option Error) (db : Db) → P db → P (finish_job env job_id (e, db)).1
  unfolding finish_job
  finish_job-P job_id e db = finish_found-P e (get_job job_id db) db
