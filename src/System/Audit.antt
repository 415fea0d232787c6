-- ===== src/System/Audit.antt =====
-- The events of the approvals, after the transactions of the whole program.
use mathlib.Core.List.{Memᴰ}
use mathlib.Core.List.Memᴰ
use evidence_flow.Prelude.{
  ◌≡◌, refl, All, All-append, All-map_of, Option, none, some, List, [], ◌∷◌, ◌++◌, Text, ℕ, suc,
}
use evidence_flow.Domain.Events.{EventType, approval_granted}
use evidence_flow.Repositories.Models.{Approval, Event, Payload, approval_payload, JobType, Env, Db}
use evidence_flow.Repositories.Documents.{
  append_event, create_document, create_approval, set_document, set_write, mark_written,
}
use evidence_flow.Workflows.Queue.{enqueue, claim_update, reclaim_expired, succeed, fail, set_job}
use evidence_flow.System.{Deployment, Action, perform_all}
use evidence_flow.System.Invariant.{granted, IsInvariant}
use evidence_flow.System.Transactions.{perform_all-P}

-- The event of an approval, with the reviewer and what was approved.
pub record IsAudited (events : List Event) (a : Approval) : Type 0 where
  pub event : Event
  pub stored : Memᴰ event events
  pub of_type : event.type ≡ approval_granted
  pub of_document : event.document_id ≡ a.document_id
  pub of_extraction : event.extraction_id ≡ some a.extraction_id
  pub of_actor : event.actor ≡ a.actor
  pub of_payload : event.payload ≡ approval_payload a.id a.payload_hash a.expires_at

abbrev pub AreAudited : Db → Type 0
AreAudited db = All (IsAudited db.events) db.approvals

append-IsAudited :
    (events more : List Event) (a : Approval) → IsAudited events a → IsAudited (events ++ more) a
append-IsAudited events more a audited = record {
  event = audited.event;
  stored = Memᴰ.append_left more audited.stored;
  of_type = audited.of_type;
  of_document = audited.of_document;
  of_extraction = audited.of_extraction;
  of_actor = audited.of_actor;
  of_payload = audited.of_payload;
}

append_event-AreAudited :
    (env : Env) (document_id : Text) (extraction_id : Option Text) (type : EventType) (actor : Text)
    (payload : Payload) (db : Db)
    → AreAudited db
    → AreAudited (append_event env document_id extraction_id type actor payload db)
unfolding append_event
append_event-AreAudited env document_id extraction_id type actor payload db =
    All-map_of (λ a. append-IsAudited db.events _ a) db.approvals

granted-AreAudited :
    (env : Env) (id extraction_id hash actor : Text) (expires_at : ℕ) (db : Db)
    → AreAudited db
    → AreAudited (granted env id extraction_id hash actor expires_at db)
unfolding append_event create_approval set_document
granted-AreAudited env id extraction_id hash actor expires_at db h =
    let event : Event = record {
      id = env.uuid (suc db.draws);
      document_id = id;
      extraction_id = some extraction_id;
      type = approval_granted;
      actor = actor;
      payload = approval_payload (env.uuid db.draws) hash expires_at;
      created_at = env.clock (suc db.draws);
    } in
    All-append (IsAudited (db.events ++ event ∷ [])) db.approvals _
      (All-map_of (λ a. append-IsAudited db.events (event ∷ []) a) db.approvals h)
      (
        record {
          event = event;
          stored = Memᴰ.append_right db.events (Memᴰ.head refl);
          of_type = refl;
          of_document = refl;
          of_extraction = refl;
          of_actor = refl;
          of_payload = refl;
        },
        tt,
      )

enqueue-AreAudited :
    (env : Env) (type : JobType) (document_id : Text) (run_at : Option ℕ) (max_attempts : ℕ)
    (db : Db)
    → AreAudited db
    → AreAudited (enqueue env type document_id run_at max_attempts db).1
unfolding enqueue
enqueue-AreAudited env type document_id none max_attempts db h = h
enqueue-AreAudited env type document_id (some moment) max_attempts db h = h

AreAudited-IsInvariant : (env : Env) → IsInvariant env AreAudited
unfolding create_document set_document set_write mark_written claim_update reclaim_expired succeed
    fail set_job
AreAudited-IsInvariant env = record {
  draws = λ n db h. h;
  event = append_event-AreAudited env;
  document = λ filename text id db h. h;
  extraction = λ x db hashed h. h;
  validation = λ row db h. h;
  status = λ id next db undecided h. h;
  revocation = λ id db h. h;
  grant = granted-AreAudited env;
  write_claim = λ w db h. h;
  write_change = λ id change db h. h;
  landing = λ row db apart backed h. h;
  completion = λ id hash db recorded h. h;
  job = enqueue-AreAudited env;
  lease = λ worker_id lease moment job_id db h. h;
  reclaim = λ db h. h;
  success = λ job db h. h;
  failure = λ job error db h. h;
}

-- After any requests, starts and sessions of workers, in any order, if that held before: each approval
-- that is stored has its event, which names its document, its extraction, the reviewer, the hash that
-- was approved and when the approval expires.
pub perform_all-AreAudited :
    (d : Deployment) (actions : List Action) (db : Db)
    → AreAudited db
    → AreAudited (perform_all d actions db)
perform_all-AreAudited d = perform_all-P d AreAudited (AreAudited-IsInvariant d.env)
