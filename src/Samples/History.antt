-- ===== src/Samples/History.antt =====
-- A run of the whole program: a document is posted, extracted, approved and written, between the
-- sessions of two workers.
use evidence_flow.Prelude.{All, none, List, [], ◌∷◌, codes, pos, false, true}
use evidence_flow.Repositories.Models.{Db, empty_db}
use evidence_flow.Repositories.History.{Keeps}
use evidence_flow.Providers.Crm.Uniqueness.{IsUnique}
use evidence_flow.System.{
  Deployment, Action, posts_document, posts_approve, posts_write, posts_job, worker_claims,
  worker_dispatches, worker_finishes, perform_all,
}
use evidence_flow.System.History.{perform_all-Keeps, perform_all-IsUnique}
use evidence_flow.System.Approved.{WasApproved, perform_all-WasApproved}
use evidence_flow.System.Truth.{IsConsistent}
use evidence_flow.System.Truth.Kept.{perform_all-IsConsistent}
use evidence_flow.System.Jobs.{AreOrderly, perform_all-AreOrderly}
use evidence_flow.System.Audit.{AreAudited, perform_all-AreAudited}
use evidence_flow.Samples.World.{env, intake, source}

abbrev pub deployment : Deployment
deployment = record {
  env = env;
  settings = record {
    database_url = [];
    provider = codes "fake";
    openai_model = [];
    request_timeout_seconds = 60;
    run_worker = false;
    seed_on_start = false;
    fixture_dir = [];
    auto_create_schema = true;
    rate_limit_per_minute = pos 60;
    max_body_bytes = pos 1000;
  };
  uuid5 = λ t. t;
  files = λ directories. [];
  intake = intake;
  lease = 10;
  allow_value_fallback = false;
}

-- The document gets the identifier 0, its job the identifier 2.
abbrev actions : List Action
actions =
    posts_document (record { filename = codes "f"; text = source })
    ∷ posts_job (codes "0") (record { type = codes "extract" })
    ∷ worker_claims (codes "w")
    ∷ worker_dispatches (codes "w") (codes "2")
    ∷ worker_claims (codes "v")
    ∷ posts_approve (codes "r") (codes "0")
    ∷ worker_finishes (codes "2") none
    ∷ posts_write (codes "0")
    ∷ posts_write (codes "0")
    ∷ []

perform_all-WasApproved_example :
    All
      (WasApproved env (perform_all deployment actions empty_db))
      (perform_all deployment actions empty_db).crm_records
perform_all-WasApproved_example = perform_all-WasApproved deployment actions

perform_all-IsConsistent_example : IsConsistent env (perform_all deployment actions empty_db)
perform_all-IsConsistent_example = perform_all-IsConsistent deployment actions empty_db tt

perform_all-IsUnique_example : IsUnique (perform_all deployment actions empty_db)
perform_all-IsUnique_example =
    perform_all-IsUnique deployment actions empty_db (record { by_key = tt; by_business_key = tt })

perform_all-Keeps_example : Keeps env empty_db (perform_all deployment actions empty_db)
perform_all-Keeps_example = perform_all-Keeps deployment actions empty_db

perform_all-AreOrderly_example : AreOrderly (perform_all deployment actions empty_db)
perform_all-AreOrderly_example = perform_all-AreOrderly deployment actions empty_db tt

-- A worker on its own, after a document and a job were posted.
abbrev queued : Db
queued =
    perform_all deployment
      (posts_document (record { filename = codes "f"; text = source })
        ∷ posts_job (codes "0") (record { type = codes "extract" })
        ∷ [])
      empty_db

perform_all-AreAudited_example : AreAudited (perform_all deployment actions empty_db)
perform_all-AreAudited_example = perform_all-AreAudited deployment actions empty_db tt
