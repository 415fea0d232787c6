-- ===== src/Workflows/Worker.antt =====
-- app/workflows/worker.py: one worker. Its three sessions follow one another on the database here; in
-- `System` others come between them. `none` for the client of the destination is the default.
pub mod Settled
pub mod Drained
use evidence_flow.Prelude.{
  ℕ, zero, suc, Bool, true, false, Option, none, some, List, [], ◌∷◌, ◌++◌, Text, Result, ok, err,
  Exec,
}
use evidence_flow.Domain.Failures.{Error, document_gone, missing_row}
use evidence_flow.Repositories.Models.{Document, Job, JobType, extract, write, Env, Db}
use evidence_flow.Repositories.Documents.{get_document}
use evidence_flow.Providers.Crm.{CrmClient, create_record}
use evidence_flow.Services.Validation.{validate_extraction}
use evidence_flow.Services.Extraction.{Intake, ExtractionOutcome, extract_document}
use evidence_flow.Services.CrmWrite.{write_approved_record}
use evidence_flow.Workflows.Queue.{get_job, claim, succeed, fail, reclaim_expired}

pub record Worker : Type 0 where
  pub intake : Intake
  pub crm : Option CrmClient
  pub worker_id : Text
  pub lease : ℕ
  pub allow_value_fallback : Bool

-- `self.crm or DatabaseCrm(session)`
abbrev pub client_of : Env → Option CrmClient → CrmClient
client_of env none = create_record env
client_of env (some crm) = crm

-- `except Exception as exc: return exc`
abbrev pub caught {ℓ} : {A : Type ℓ} → Result Error A × Db → Option Error × Db
caught (ok a, db) = (none, db)
caught (err e, db) = (some e, db)

-- After an extraction: its error is returned, a success is validated.
abbrev pub validate_outcome :
    Env → Document → ExtractionOutcome → Option Error → Db → Option Error × Db
validate_outcome env document outcome none db =
    caught (validate_extraction env document outcome.extraction db)
validate_outcome env document outcome (some e) db = (some e, db)

abbrev pub after_extraction :
    Env → Document → Result Error ExtractionOutcome × Db → Option Error × Db
after_extraction env document (ok outcome, db) =
    validate_outcome env document outcome outcome.error db
after_extraction env document (err e, db) = (some e, db)

-- `_dispatch` on the document that it found. A row's type is one of the two that `enqueue` takes.
unfoldable pub dispatch_type :
    Env → Option Db → Worker → Document → JobType → Db → Option Error × Db
dispatch_type env conflict worker document extract db =
    after_extraction env document
      (extract_document env worker.intake worker.allow_value_fallback document db)
dispatch_type env conflict worker document write db =
    caught (write_approved_record env (client_of env worker.crm) conflict document db)

unfoldable pub dispatch_document :
    Env → Option Db → Worker → Job → Option Document → Db → Option Error × Db
unfolding dispatch_type
dispatch_document env conflict worker job none db = (some (document_gone job.document_id), db)
dispatch_document env conflict worker job (some document) db =
    dispatch_type env conflict worker document job.type db

-- `_dispatch`
unfoldable pub dispatch_job : Env → Option Db → Worker → Job → Db → Option Error × Db
unfolding dispatch_document
dispatch_job env conflict worker job db =
    dispatch_document env conflict worker job (get_document job.document_id db) db

-- `_claim`
unfoldable pub claim_job : Env → Worker → Db → Option Job × Db
claim_job env worker db = claim env worker.worker_id worker.lease (reclaim_expired env db).1

-- The third session of `run_once`: what came of the job is stored.
abbrev pub settle : Env → Option Error → Job → Db → Db
settle env none job db = succeed env job db
settle env (some e) job db = fail env job e db

unfoldable pub finish_found : Env → Option Error → Option Job → Exec Db Error (Option Job)
finish_found env error none db = (err missing_row, db)
finish_found env error (some job) db =
    let after = settle env error job db in (ok (get_job job.id after), after)

unfoldable pub finish_job : Env → Text → Option Error × Db → Result Error (Option Job) × Db
unfolding finish_found
finish_job env job_id (error, db) = finish_found env error (get_job job_id db) db

-- The second session, on the job as it is read there, and the third.
unfoldable pub run_found : Env → Option Db → Worker → Text → Option Job → Exec Db Error (Option Job)
unfolding dispatch_job finish_job
run_found env conflict worker job_id none db = (err missing_row, db)
run_found env conflict worker job_id (some job) db =
    finish_job env job_id (dispatch_job env conflict worker job db)

unfoldable pub run_claimed :
    Env → Option Db → Worker → Option Job × Db → Result Error (Option Job) × Db
unfolding run_found
run_claimed env conflict worker (none, db) = (ok none, db)
run_claimed env conflict worker (some job, db) =
    run_found env conflict worker job.id (get_job job.id db) db

unfoldable pub run_once : Env → Option Db → Worker → Exec Db Error (Option Job)
unfolding run_claimed claim_job
run_once env conflict worker db = run_claimed env conflict worker (claim_job env worker db)

-- `drain`: a job after another, at most `limit` of them, while there is one. The count comes back.
abbrev count_one : Result Error ℕ → Result Error ℕ
count_one (ok n) = ok (suc n)
count_one (err e) = err e

unfoldable pub drain_next :
    (Db → Result Error ℕ × Db) → Result Error (Option Job) × Db → Result Error ℕ × Db
drain_next again (ok none, db) = (ok 0, db)
drain_next again (ok (some job), db) = let (count, after) = again db in (count_one count, after)
drain_next again (err e, db) = (err e, db)

unfoldable pub drain : Env → Option Db → Worker → ℕ → Exec Db Error ℕ
unfolding drain_next run_once
drain env conflict worker zero db = (ok 0, db)
drain env conflict worker (suc limit) db =
    drain_next (drain env conflict worker limit) (run_once env conflict worker db)

-- What a round of `run_forever` waits for: nothing, the idle pause, or the pause after an exception.
pub data Pause : Type 0 where
  at_once idle after_error : Pause

abbrev pause_of : Result Error (Option Job) → Pause
pause_of (ok none) = idle
pause_of (ok (some job)) = at_once
pause_of (err e) = after_error

-- `run_forever` until the stop event is found set, after the given number of rounds.
unfoldable pub run_forever : Env → Option Db → Worker → ℕ → Db → List Pause × Db
unfolding run_once
run_forever env conflict worker zero db = ([], db)
run_forever env conflict worker (suc rounds) db =
    let (answer, next) = run_once env conflict worker db in
    let (pauses, after) = run_forever env conflict worker rounds next in
    (pause_of answer ∷ pauses, after)
