-- ===== src/Samples/World.antt =====
-- An invoice, the environment and the databases that the concrete runs use.
use evidence_flow.Prelude.{
  ℕ, ◌&&◌, none, some, [], ◌∷◌, Text, codes, pos, leb, ◌-◌, if◌then◌else◌, str_of_int, ok,
}
use evidence_flow.Domain.Events.{DocumentStatus, ExtractionStatus}
use evidence_flow.Domain.Decimal.{Decimal}
use evidence_flow.Domain.Schema.{InvoiceDraft}
use evidence_flow.Domain.Validation.Dates.{Unicode}
use evidence_flow.Repositories.Models.{Document, Extraction, Approval, Metadata, Env, Db, empty_db}
use evidence_flow.Services.Extraction.{Intake, Validated}

-- The ASCII part of the character database.
abbrev pub ascii : Unicode
ascii = record {
  digit_value = λ c. if leb b'0' c && leb c b'9' then some (c - 48) else none;
  is_word = λ c. leb b'0' c && leb c b'z';
  lower = λ c. c ∷ [];
}

-- A digest without collisions, a clock that ticks with each draw, and numbered identifiers.
abbrev pub env : Env
env = record {
  uuid = λ n. str_of_int n;
  clock = λ n. n;
  today = λ n. record { year = 2025; month = 6; day = 30 };
  sha256 = λ t. t;
  canonical_json = λ draft. draft.invoice_number.value;
  unicode = ascii;
}

abbrev pub money : ℕ → Decimal
money cents = record { mantissa = pos cents; scale = 2 }

abbrev pub source : Text
source = codes "acme inv-7 on 2025-06-01 GBP net 10.00 tax 2.00 gross 12.00"

abbrev pub draft : InvoiceDraft
draft = record {
  invoice_number = record { value = codes "inv-7"; quote = codes "inv-7" };
  supplier = record { value = codes "acme"; quote = codes "acme" };
  currency = record { value = codes "GBP"; quote = codes "GBP" };
  issue_date = record {
    value = record { year = 2025; month = 6; day = 1 };
    quote = codes "2025-06-01";
  };
  line_items =
      record {
        description = codes "tea";
        quantity = money 200;
        unit_price = money 500;
        amount = money 1000;
      }
      ∷ [];
  subtotal = record { value = money 1000; quote = codes "net 10.00" };
  tax = record { value = money 200; quote = codes "tax 2.00" };
  total = record { value = money 1200; quote = codes "gross  12.00" };
}

abbrev pub metadata : Metadata
metadata = record {
  model = codes "m";
  prompt_hash = codes "p";
  latency_ms = 1;
  input_tokens = none;
  output_tokens = none;
  request_id = none;
}

-- A provider that answers, and a payload that is always read as the draft.
abbrev pub intake : Intake
intake = record {
  provide = λ text. ok (record { raw = codes "{}"; metadata = metadata });
  model_validate = λ raw. Validated.valid draft;
}

abbrev pub document : Document
document = record {
  id = codes "d";
  filename = codes "f";
  source_text = source;
  status = DocumentStatus.received;
  approved_payload_hash = none;
  created_at = 0;
}

abbrev pub approved_document : Document
approved_document = record document {
  status = DocumentStatus.approved;
  approved_payload_hash = some (codes "inv-7");
}

abbrev pub extraction : Extraction
extraction = record {
  id = codes "x";
  document_id = codes "d";
  status = ExtractionStatus.succeeded;
  schema_version = codes "1.0.0";
  raw_payload = none;
  draft = some draft;
  evidence = none;
  payload_hash = some (codes "inv-7");
  error_code = none;
  error_detail = none;
  metadata = none;
  created_at = 1;
}

abbrev pub approval : Approval
approval = record {
  id = codes "a";
  document_id = codes "d";
  extraction_id = codes "x";
  payload_hash = codes "inv-7";
  actor = codes "r";
  expires_at = 100;
  created_at = 2;
}

-- The document was received, and nothing else.
abbrev pub received_db : Db
received_db = record empty_db { draws = 10; documents = document ∷ [] }

-- The document is approved in the version of its extraction.
abbrev pub approved_db : Db
approved_db = record empty_db {
  draws = 10;
  documents = approved_document ∷ [];
  extractions = extraction ∷ [];
  approvals = approval ∷ [];
}

abbrev pub validated_document : Document
validated_document = record document { status = DocumentStatus.validated }

-- The document's extraction has been validated.
abbrev pub validated_db : Db
validated_db = record empty_db {
  draws = 10;
  documents = validated_document ∷ [];
  extractions = extraction ∷ [];
}
