-- ===== src/Providers/Mock.antt =====
-- app/providers/crm.py: `MockCrm`, a destination in memory. Its calls hold a lock, so that they follow one
-- another. `records` has the newest record first.
use evidence_flow.Prelude.{
  ◌+◌, true, false, Option, none, some, List, [], ◌∷◌, ◌++◌, Text, codes, ◌==◌, nat_eq, list_eq,
  find, length, ok, err, Exec,
}
use evidence_flow.Domain.Failures.{Error}
use evidence_flow.Domain.Schema.{InvoiceDraft, padded}
use evidence_flow.Providers.Crm.{CrmRecord}

pub record Stored : Type 0 where
  pub key : Text
  pub external_id : Text
  pub payload : Option InvoiceDraft

pub record MockCrm : Type 0 where
  pub records : List Stored
  pub calls : List Text
  pub failures : List Error

-- After the lookup of the key.
unfoldable pub mock_stored :
    Text → Option InvoiceDraft → Option Stored → Exec MockCrm Error CrmRecord
mock_stored key payload (some stored) crm =
    (ok (record { external_id = stored.external_id; created = false }), crm)
mock_stored key payload none crm =
    let external_id = codes "CRM-" ++ padded 5 (length crm.records + 1) in
    (
      ok (record { external_id = external_id; created = true }),
      record crm {
        records = record { key = key; external_id = external_id; payload = payload } ∷ crm.records;
      },
    )

-- After the call is noted: the next of the planned failures comes first.
unfoldable pub mock_called : Text → Option InvoiceDraft → List Error → Exec MockCrm Error CrmRecord
unfolding mock_stored
mock_called key payload (e ∷ es) crm = (err e, record crm { failures = es })
mock_called key payload [] crm = mock_stored key payload (find (λ s. s.key == key) crm.records) crm

unfoldable pub mock_create_record : Text → Option InvoiceDraft → Exec MockCrm Error CrmRecord
unfolding mock_called
mock_create_record key payload crm =
    mock_called key payload crm.failures (record crm { calls = crm.calls ++ key ∷ [] })
