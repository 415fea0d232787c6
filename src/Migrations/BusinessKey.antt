-- ===== src/Migrations/BusinessKey.antt =====
-- migrations/versions/0002_destination_business_key.py
use evidence_flow.Prelude.{List, [], ◌∷◌, codes}
use evidence_flow.Migrations.{
  Operation, string, not_null, add_column, drop_column, create_unique_constraint, drop_constraint,
}

-- `upgrade`
abbrev pub business_key_upgrade : List Operation
business_key_upgrade =
    add_column (codes "crm_record") (not_null (codes "business_key") (string 320))
    ∷ create_unique_constraint (codes "crm_record") (codes "uq_crm_record_business_key")
        (codes "business_key")
    ∷ []

-- `downgrade`
abbrev pub business_key_downgrade : List Operation
business_key_downgrade =
    drop_constraint (codes "crm_record") (codes "uq_crm_record_business_key")
    ∷ drop_column (codes "crm_record") (codes "business_key")
    ∷ []
