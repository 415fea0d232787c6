-- ===== src/Migrations/Declared.antt =====
-- app/repositories/models.py: the tables that the classes declare, which `Base.metadata.create_all` creates. A
-- foreign key to an `id` has its type, and the index of a column the name that SQLAlchemy gives it.
use evidence_flow.Prelude.{[], ◌∷◌, ◌++◌, codes, filter, not, if◌then◌else◌}
use evidence_flow.Startup.{Settings}
use evidence_flow.Migrations.{
  Schema, Table, has_table, string, text, json, integer, timestamp, primary_key, foreign_key,
  unique, not_null, nullable,
}

abbrev pub declared_document : Table
declared_document = record {
  name = codes "document";
  columns =
      not_null (codes "id") (string 36)
      ∷ not_null (codes "filename") (string 255)
      ∷ not_null (codes "source_text") text
      ∷ not_null (codes "status") (string 32)
      ∷ nullable (codes "approved_payload_hash") (string 64)
      ∷ not_null (codes "created_at") timestamp
      ∷ [];
  constraints = primary_key (codes "id") ∷ [];
  indexes = [];
}

abbrev pub declared_extraction : Table
declared_extraction = record {
  name = codes "extraction";
  columns =
      not_null (codes "id") (string 36)
      ∷ not_null (codes "document_id") (string 36)
      ∷ not_null (codes "status") (string 32)
      ∷ not_null (codes "schema_version") (string 16)
      ∷ nullable (codes "raw_payload") json
      ∷ nullable (codes "draft") json
      ∷ nullable (codes "evidence") json
      ∷ nullable (codes "payload_hash") (string 64)
      ∷ nullable (codes "error_code") (string 64)
      ∷ nullable (codes "error_detail") text
      ∷ nullable (codes "model") (string 128)
      ∷ nullable (codes "prompt_hash") (string 64)
      ∷ nullable (codes "latency_ms") integer
      ∷ nullable (codes "input_tokens") integer
      ∷ nullable (codes "output_tokens") integer
      ∷ nullable (codes "request_id") (string 128)
      ∷ not_null (codes "created_at") timestamp
      ∷ [];
  constraints =
      primary_key (codes "id") ∷ foreign_key (codes "document_id") (codes "document") ∷ [];
  indexes = (codes "ix_extraction_document_id", codes "document_id") ∷ [];
}

abbrev pub declared_approval : Table
declared_approval = record {
  name = codes "approval";
  columns =
      not_null (codes "id") (string 36)
      ∷ not_null (codes "document_id") (string 36)
      ∷ not_null (codes "extraction_id") (string 36)
      ∷ not_null (codes "payload_hash") (string 64)
      ∷ not_null (codes "actor") (string 64)
      ∷ not_null (codes "expires_at") timestamp
      ∷ not_null (codes "created_at") timestamp
      ∷ [];
  constraints =
      primary_key (codes "id")
      ∷ foreign_key (codes "document_id") (codes "document")
      ∷ foreign_key (codes "extraction_id") (codes "extraction")
      ∷ [];
  indexes = (codes "ix_approval_document_id", codes "document_id") ∷ [];
}

abbrev pub declared_crm_write : Table
declared_crm_write = record {
  name = codes "crm_write";
  columns =
      not_null (codes "id") (string 36)
      ∷ not_null (codes "document_id") (string 36)
      ∷ not_null (codes "extraction_id") (string 36)
      ∷ not_null (codes "idempotency_key") (string 64)
      ∷ not_null (codes "status") (string 16)
      ∷ nullable (codes "external_id") (string 64)
      ∷ not_null (codes "attempts") integer
      ∷ nullable (codes "last_error") text
      ∷ not_null (codes "created_at") timestamp
      ∷ [];
  constraints =
      primary_key (codes "id")
      ∷ foreign_key (codes "document_id") (codes "document")
      ∷ foreign_key (codes "extraction_id") (codes "extraction")
      ∷ unique (codes "uq_crm_write_idempotency_key") (codes "idempotency_key")
      ∷ [];
  indexes = (codes "ix_crm_write_document_id", codes "document_id") ∷ [];
}

abbrev pub declared_job : Table
declared_job = record {
  name = codes "job";
  columns =
      not_null (codes "id") (string 36)
      ∷ not_null (codes "type") (string 16)
      ∷ not_null (codes "document_id") (string 36)
      ∷ not_null (codes "status") (string 16)
      ∷ not_null (codes "attempts") integer
      ∷ not_null (codes "max_attempts") integer
      ∷ not_null (codes "run_at") timestamp
      ∷ nullable (codes "lease_expires_at") timestamp
      ∷ nullable (codes "locked_by") (string 64)
      ∷ nullable (codes "failure_kind") (string 32)
      ∷ nullable (codes "last_error") text
      ∷ not_null (codes "created_at") timestamp
      ∷ not_null (codes "updated_at") timestamp
      ∷ [];
  constraints =
      primary_key (codes "id") ∷ foreign_key (codes "document_id") (codes "document") ∷ [];
  indexes =
      (codes "ix_job_document_id", codes "document_id")
      ∷ (codes "ix_job_status", codes "status")
      ∷ (codes "ix_job_run_at", codes "run_at")
      ∷ [];
}

abbrev pub declared_crm_record : Table
declared_crm_record = record {
  name = codes "crm_record";
  columns =
      not_null (codes "id") (string 36)
      ∷ not_null (codes "idempotency_key") (string 64)
      ∷ not_null (codes "business_key") (string 320)
      ∷ not_null (codes "external_id") (string 64)
      ∷ not_null (codes "payload") json
      ∷ not_null (codes "created_at") timestamp
      ∷ [];
  constraints =
      primary_key (codes "id")
      ∷ unique (codes "uq_crm_record_idempotency_key") (codes "idempotency_key")
      ∷ unique (codes "uq_crm_record_business_key") (codes "business_key")
      ∷ [];
  indexes = [];
}

abbrev pub declared_validation_result : Table
declared_validation_result = record {
  name = codes "validation_result";
  columns =
      not_null (codes "id") (string 36)
      ∷ not_null (codes "extraction_id") (string 36)
      ∷ not_null (codes "rule") (string 64)
      ∷ not_null (codes "outcome") (string 16)
      ∷ not_null (codes "message") text
      ∷ not_null (codes "created_at") timestamp
      ∷ [];
  constraints =
      primary_key (codes "id") ∷ foreign_key (codes "extraction_id") (codes "extraction") ∷ [];
  indexes = (codes "ix_validation_result_extraction_id", codes "extraction_id") ∷ [];
}

abbrev pub declared_event : Table
declared_event = record {
  name = codes "event";
  columns =
      not_null (codes "id") (string 36)
      ∷ not_null (codes "document_id") (string 36)
      ∷ nullable (codes "extraction_id") (string 36)
      ∷ not_null (codes "type") (string 48)
      ∷ not_null (codes "actor") (string 64)
      ∷ not_null (codes "payload") json
      ∷ not_null (codes "created_at") timestamp
      ∷ [];
  constraints =
      primary_key (codes "id")
      ∷ foreign_key (codes "document_id") (codes "document")
      ∷ foreign_key (codes "extraction_id") (codes "extraction")
      ∷ [];
  indexes = (codes "ix_event_document_id", codes "document_id") ∷ [];
}

abbrev pub declared : Schema
declared =
    declared_document ∷ declared_extraction ∷ declared_approval ∷ declared_crm_write ∷ declared_job
    ∷ declared_crm_record ∷ declared_validation_result ∷ declared_event ∷ []

-- `create_all`, which leaves a table alone that is there.
unfoldable pub create_all : Schema → Schema
create_all s = s ++ filter (λ (t : Table). not (has_table t.name s)) declared

-- `build_session_factory` of app/repositories/session.py
unfoldable pub schema_at_start : Settings → Schema → Schema
unfolding create_all
schema_at_start settings s = if settings.auto_create_schema then create_all s else s
