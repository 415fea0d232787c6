-- ===== src/System/Drain.antt =====
-- `drain` of one worker, and the transactions of the whole program.
use evidence_flow.Prelude.{
  ◌≡◌, refl, sym, ap, subst, ◌∙◌, ℕ, zero, suc, Option, none, some, List, [], ◌∷◌, ◌++◌, Text,
  Result, ok, err,
}
use evidence_flow.Domain.Failures.{Error}
use evidence_flow.Repositories.Models.{Job, Db}
use evidence_flow.Workflows.Queue.{get_job}
use evidence_flow.Workflows.Worker.{
  claim_job, dispatch_job, finish_job, run_found, run_claimed, run_once, drain, drain_next,
}
use evidence_flow.Repositories.History.{Keeps}
use evidence_flow.Providers.Crm.Uniqueness.{IsUnique}
use evidence_flow.System.History.{perform_all-Keeps, perform_all-IsUnique}
use evidence_flow.System.{
  Deployment, Action, worker_claims, worker_dispatches, worker_finishes, worker_of, perform,
  perform_all, dispatch_session,
}

perform_all-append :
    (d : Deployment) (xs ys : List Action) (db : Db)
    → perform_all d (xs ++ ys) db ≡ perform_all d ys (perform_all d xs db)
unfolding perform_all
perform_all-append d [] ys db = refl
perform_all-append d (x ∷ xs) ys db = perform_all-append d xs ys (perform d x db)

-- A database that transactions lead to from another one.
abbrev pub IsReached : Deployment → Db → Db → Type 0
IsReached d before after = (actions : List Action) × (after ≡ perform_all d actions before)

IsReached-trans :
    (d : Deployment) (a b c : Db) → IsReached d a b → IsReached d b c → IsReached d a c
IsReached-trans d a b c (xs, e) (ys, f) =
    (xs ++ ys, f ∙ ap (perform_all d ys) e ∙ sym (perform_all-append d xs ys a))

module _ (d : Deployment) (worker_id : Text) where
  run_found-IsReached :
      (job_id : Text) (job : Option Job) (db : Db)
      → get_job job_id db ≡ job
      → IsReached d db (run_found d.env none (worker_of d worker_id) job_id job db).1
  unfolding run_found perform_all dispatch_session
  run_found-IsReached job_id none db found = ([], refl)
  run_found-IsReached job_id (some job) db found =
      let error = (dispatch_job d.env none (worker_of d worker_id) job db).0 in
      (
        worker_dispatches worker_id job_id ∷ worker_finishes job_id error ∷ [],
        ap
            (λ j.
              (finish_job d.env job_id
                (error, (dispatch_session d.env (worker_of d worker_id) j db).1)).1)
            (sym found),
      )

  run_claimed-IsReached :
      (claimed : Option Job × Db)
      → IsReached d claimed.1 (run_claimed d.env none (worker_of d worker_id) claimed).1
  unfolding run_claimed perform_all
  run_claimed-IsReached (none, db) = ([], refl)
  run_claimed-IsReached (some job, db) = run_found-IsReached job.id (get_job job.id db) db refl

  run_once-IsReached : (db : Db) → IsReached d db (run_once d.env none (worker_of d worker_id) db).1
  unfolding run_once perform_all
  run_once-IsReached db =
      let worker = worker_of d worker_id in
      let claimed = claim_job d.env worker db in
      let claims : IsReached d db claimed.1 = (worker_claims worker_id ∷ [], refl) in
      IsReached-trans d db claimed.1 (run_claimed d.env none worker claimed).1 claims
        (run_claimed-IsReached claimed)

  drain_next-IsReached :
      (again : Db → Result Error ℕ × Db)
      → ((db : Db) → IsReached d db (again db).1)
      → (ran : Result Error (Option Job) × Db) → IsReached d ran.1 (drain_next again ran).1
  unfolding drain_next perform_all
  drain_next-IsReached again ih (ok none, db) = ([], refl)
  drain_next-IsReached again ih (ok (some job), db) = ih db
  drain_next-IsReached again ih (err e, db) = ([], refl)

  -- However many jobs a worker runs, and whatever comes of each, its sessions are transactions of the
  -- whole program: the database that it leaves is the one that a list of them leads to.
  pub drain-IsReached :
      (limit : ℕ) (db : Db) → IsReached d db (drain d.env none (worker_of d worker_id) limit db).1
  unfolding drain perform_all
  drain-IsReached zero db = ([], refl)
  drain-IsReached (suc limit) db =
      let worker = worker_of d worker_id in
      let ran = run_once d.env none worker db in
      IsReached-trans d db ran.1 (drain_next (drain d.env none worker limit) ran).1
        (run_once-IsReached db)
        (drain_next-IsReached (drain d.env none worker limit) (drain-IsReached limit) ran)

-- What a worker leaves of the history, however many jobs it runs, and whatever comes of each.
pub drain-Keeps :
    (d : Deployment) (worker_id : Text) (limit : ℕ) (db : Db)
    → Keeps d.env db (drain d.env none (worker_of d worker_id) limit db).1
drain-Keeps d worker_id limit db =
    let (actions, e) = drain-IsReached d worker_id limit db in
    subst (Keeps d.env db) (sym e) (perform_all-Keeps d actions db)

-- And of the keys of the destination.
pub drain-IsUnique :
    (d : Deployment) (worker_id : Text) (limit : ℕ) (db : Db)
    → IsUnique db
    → IsUnique (drain d.env none (worker_of d worker_id) limit db).1
drain-IsUnique d worker_id limit db u =
    let (actions, e) = drain-IsReached d worker_id limit db in
    subst IsUnique (sym e) (perform_all-IsUnique d actions db u)
