-- ===== src/Migrations/Start.antt =====
-- The start of the application on a migrated database, and the migration of one that it has set up.
use evidence_flow.Prelude.{
  ◌≡◌, refl, sym, ◌∙◌, subst, true, false, not, filter, none, [], ◌∷◌, ◌++◌, Text, codes, ◌==◌,
  ==_iff, nat_eq, list_eq, list_beq, Bool-cases, inl, inr,
}
use evidence_flow.Startup.{Settings}
use evidence_flow.Migrations.{Table, Schema, has_table, migrate, apply}
use evidence_flow.Migrations.Declared.{declared, create_all, schema_at_start}
use evidence_flow.Migrations.Frame.{has_table-append}
use evidence_flow.Migrations.Revisions.{upgrade}

has_table-left :
    (name : Text) (s own : Schema) → has_table name s ≡ true → has_table name (s ++ own) ≡ true
has_table-left name [] own h = absurd (cc)
has_table-left name (t ∷ ts) own h = elim (Bool-cases (t.name == name)) [
  | inl same ↦ rw same refl
  | inr other ↦ rw other (has_table-left name ts own (rw other at h))
]

-- The tables that are not in a schema yet.
abbrev missing : Schema → Schema → Schema
missing s = filter (λ (t : Table). not (has_table t.name s))

has_table-missing :
    (name : Text) (s tables : Schema)
    → has_table name s ≡ false
    → has_table name tables ≡ true
    → has_table name (missing s tables) ≡ true
has_table-missing name s [] absent h = absurd (cc)
has_table-missing name s (t ∷ ts) absent h = elim (Bool-cases (t.name == name)) [
  | inl same ↦
      let kept : has_table t.name s ≡ false =
        subst (λ n. has_table n s ≡ false) (sym ((==_iff t.name name).0 same)) absent in
      rw kept (rw same refl)
  | inr other ↦ elim (Bool-cases (has_table t.name s)) [
    | inl there ↦ rw there (has_table-missing name s ts absent (rw other at h))
    | inr lacking ↦ rw lacking (rw other (has_table-missing name s ts absent (rw other at h)))
  ]
]

create_all-has_table :
    (name : Text) (s : Schema)
    → has_table name declared ≡ true
    → has_table name (create_all s) ≡ true
unfolding create_all
create_all-has_table name s h = elim (Bool-cases (has_table name s)) [
  | inl there ↦ has_table-left name s (missing s declared) there
  | inr absent ↦
      has_table-append name s (missing s declared) absent
      ∙ has_table-missing name s declared absent h
]

-- On a database whose tables the start has created, whatever else is there, the migration fails: its
-- first table exists.
pub upgrade_after_start :
    (settings : Settings) (s : Schema)
    → settings.auto_create_schema ≡ true
    → migrate upgrade (schema_at_start settings s) ≡ none
unfolding schema_at_start migrate apply list_beq
upgrade_after_start settings s created =
    let there = create_all-has_table (codes "crm_record") s refl in rw created (rw there refl)
