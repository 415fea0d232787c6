-- ===== src/Migrations/Initial.antt =====
-- migrations/versions/0001_initial_schema.py
use evidence_flow.Prelude.{List, [], ◌∷◌, codes}
use evidence_flow.Migrations.{
  Table, Operation, string, text, json, integer, timestamp, primary_key, foreign_key, unique,
  create_table, drop_table, create_index, drop_index, not_null, nullable,
}

abbrev pub crm_record_table : Table
crm_record_table = record {
  name = codes "crm_record";
  columns =
      not_null (codes "id") (string 36)
      ∷ not_null (codes "idempotency_key") (string 64)
      ∷ not_null (codes "external_id") (string 64)
      ∷ not_null (codes "payload") json
      ∷ not_null (codes "created_at") timestamp
      ∷ [];
  constraints =
      primary_key (codes "id")
      ∷ unique (codes "uq_crm_record_idempotency_key") (codes "idempotency_key")
      ∷ [];
  indexes = [];
}

abbrev pub document_table : Table
document_table = record {
  name = codes "document";
  columns =
      not_null (codes "id") (string 36)
      ∷ not_null (codes "filename") (string 255)
      ∷ not_null (codes "source_text") text
      ∷ not_null (codes "status") (string 32)
      ∷ nullable (codes "approved_payload_hash") (string 64)
      ∷ not_null (codes "created_at") timestamp
      ∷ [];
  constraints = primary_key (codes "id") ∷ [];
  indexes = [];
}

abbrev pub extraction_table : Table
extraction_table = record {
  name = codes "extraction";
  columns =
      not_null (codes "id") (string 36)
      ∷ not_null (codes "document_id") (string 36)
      ∷ not_null (codes "status") (string 32)
      ∷ not_null (codes "schema_version") (string 16)
      ∷ nullable (codes "raw_payload") json
      ∷ nullable (codes "draft") json
      ∷ nullable (codes "evidence") json
      ∷ nullable (codes "payload_hash") (string 64)
      ∷ nullable (codes "error_code") (string 64)
      ∷ nullable (codes "error_detail") text
      ∷ nullable (codes "model") (string 128)
      ∷ nullable (codes "prompt_hash") (string 64)
      ∷ nullable (codes "latency_ms") integer
      ∷ nullable (codes "input_tokens") integer
      ∷ nullable (codes "output_tokens") integer
      ∷ nullable (codes "request_id") (string 128)
      ∷ not_null (codes "created_at") timestamp
      ∷ [];
  constraints =
      foreign_key (codes "document_id") (codes "document") ∷ primary_key (codes "id") ∷ [];
  indexes = [];
}

abbrev pub job_table : Table
job_table = record {
  name = codes "job";
  columns =
      not_null (codes "id") (string 36)
      ∷ not_null (codes "type") (string 16)
      ∷ not_null (codes "document_id") (string 36)
      ∷ not_null (codes "status") (string 16)
      ∷ not_null (codes "attempts") integer
      ∷ not_null (codes "max_attempts") integer
      ∷ not_null (codes "run_at") timestamp
      ∷ nullable (codes "lease_expires_at") timestamp
      ∷ nullable (codes "locked_by") (string 64)
      ∷ nullable (codes "failure_kind") (string 32)
      ∷ nullable (codes "last_error") text
      ∷ not_null (codes "created_at") timestamp
      ∷ not_null (codes "updated_at") timestamp
      ∷ [];
  constraints =
      foreign_key (codes "document_id") (codes "document") ∷ primary_key (codes "id") ∷ [];
  indexes = [];
}

abbrev pub approval_table : Table
approval_table = record {
  name = codes "approval";
  columns =
      not_null (codes "id") (string 36)
      ∷ not_null (codes "document_id") (string 36)
      ∷ not_null (codes "extraction_id") (string 36)
      ∷ not_null (codes "payload_hash") (string 64)
      ∷ not_null (codes "actor") (string 64)
      ∷ not_null (codes "expires_at") timestamp
      ∷ not_null (codes "created_at") timestamp
      ∷ [];
  constraints =
      foreign_key (codes "document_id") (codes "document")
      ∷ foreign_key (codes "extraction_id") (codes "extraction")
      ∷ primary_key (codes "id")
      ∷ [];
  indexes = [];
}

abbrev pub crm_write_table : Table
crm_write_table = record {
  name = codes "crm_write";
  columns =
      not_null (codes "id") (string 36)
      ∷ not_null (codes "document_id") (string 36)
      ∷ not_null (codes "extraction_id") (string 36)
      ∷ not_null (codes "idempotency_key") (string 64)
      ∷ not_null (codes "status") (string 16)
      ∷ nullable (codes "external_id") (string 64)
      ∷ not_null (codes "attempts") integer
      ∷ nullable (codes "last_error") text
      ∷ not_null (codes "created_at") timestamp
      ∷ [];
  constraints =
      foreign_key (codes "document_id") (codes "document")
      ∷ foreign_key (codes "extraction_id") (codes "extraction")
      ∷ primary_key (codes "id")
      ∷ unique (codes "uq_crm_write_idempotency_key") (codes "idempotency_key")
      ∷ [];
  indexes = [];
}

abbrev pub event_table : Table
event_table = record {
  name = codes "event";
  columns =
      not_null (codes "id") (string 36)
      ∷ not_null (codes "document_id") (string 36)
      ∷ nullable (codes "extraction_id") (string 36)
      ∷ not_null (codes "type") (string 48)
      ∷ not_null (codes "actor") (string 64)
      ∷ not_null (codes "payload") json
      ∷ not_null (codes "created_at") timestamp
      ∷ [];
  constraints =
      foreign_key (codes "document_id") (codes "document")
      ∷ foreign_key (codes "extraction_id") (codes "extraction")
      ∷ primary_key (codes "id")
      ∷ [];
  indexes = [];
}

abbrev pub validation_result_table : Table
validation_result_table = record {
  name = codes "validation_result";
  columns =
      not_null (codes "id") (string 36)
      ∷ not_null (codes "extraction_id") (string 36)
      ∷ not_null (codes "rule") (string 64)
      ∷ not_null (codes "outcome") (string 16)
      ∷ not_null (codes "message") text
      ∷ not_null (codes "created_at") timestamp
      ∷ [];
  constraints =
      foreign_key (codes "extraction_id") (codes "extraction") ∷ primary_key (codes "id") ∷ [];
  indexes = [];
}

-- `upgrade`
abbrev pub initial_upgrade : List Operation
initial_upgrade =
    create_table crm_record_table
    ∷ create_table document_table
    ∷ create_table extraction_table
    ∷ create_index (codes "extraction") (codes "ix_extraction_document_id", codes "document_id")
    ∷ create_table job_table
    ∷ create_index (codes "job") (codes "ix_job_document_id", codes "document_id")
    ∷ create_index (codes "job") (codes "ix_job_run_at", codes "run_at")
    ∷ create_index (codes "job") (codes "ix_job_status", codes "status")
    ∷ create_table approval_table
    ∷ create_index (codes "approval") (codes "ix_approval_document_id", codes "document_id")
    ∷ create_table crm_write_table
    ∷ create_index (codes "crm_write") (codes "ix_crm_write_document_id", codes "document_id")
    ∷ create_table event_table
    ∷ create_index (codes "event") (codes "ix_event_document_id", codes "document_id")
    ∷ create_table validation_result_table
    ∷ create_index (codes "validation_result")
        (codes "ix_validation_result_extraction_id", codes "extraction_id")
    ∷ []

-- `downgrade`
abbrev pub initial_downgrade : List Operation
initial_downgrade =
    drop_index (codes "validation_result") (codes "ix_validation_result_extraction_id")
    ∷ drop_table (codes "validation_result")
    ∷ drop_index (codes "event") (codes "ix_event_document_id")
    ∷ drop_table (codes "event")
    ∷ drop_index (codes "crm_write") (codes "ix_crm_write_document_id")
    ∷ drop_table (codes "crm_write")
    ∷ drop_index (codes "approval") (codes "ix_approval_document_id")
    ∷ drop_table (codes "approval")
    ∷ drop_index (codes "job") (codes "ix_job_status")
    ∷ drop_index (codes "job") (codes "ix_job_run_at")
    ∷ drop_index (codes "job") (codes "ix_job_document_id")
    ∷ drop_table (codes "job")
    ∷ drop_index (codes "extraction") (codes "ix_extraction_document_id")
    ∷ drop_table (codes "extraction")
    ∷ drop_table (codes "document")
    ∷ drop_table (codes "crm_record")
    ∷ []
