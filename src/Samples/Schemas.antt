-- ===== src/Samples/Schemas.antt =====
-- The migrations beside the table that alembic keeps its revision in.
use evidence_flow.Prelude.{◌≡◌, refl, true, some, [], ◌∷◌, ◌++◌, codes, list_beq}
use evidence_flow.Migrations.{Schema, string, primary_key, not_null, then_all, migrate}
use evidence_flow.Migrations.Initial.{initial_upgrade, initial_downgrade}
use evidence_flow.Migrations.BusinessKey.{business_key_downgrade}
use evidence_flow.Migrations.Declared.{declared}
use evidence_flow.Migrations.Frame.{IsFree}
use evidence_flow.Migrations.Revisions.{
  upgrade, own_names, migrated, permuted, table_eq, upgrade-declared, downgrade-upgrade,
}
use evidence_flow.Migrations.Widths.{
  document_filename, limit_of, place_of, text_of, fits_in, stored-Fits,
}
use evidence_flow.Api.Schemas.{is_document_create, DocumentCreate}

abbrev versions : Schema
versions =
    record {
      name = codes "alembic_version";
      columns = not_null (codes "version_num") (string 32) ∷ [];
      constraints = primary_key (codes "version_num") ∷ [];
      indexes = [];
    }
    ∷ []

versions-IsFree : IsFree own_names versions
unfolding list_beq
versions-IsFree = (refl, (refl, (refl, (refl, (refl, (refl, (refl, (refl, tt))))))))

upgrade-declared_example :
    (migrate upgrade versions ≡ some (versions ++ migrated))
    × (permuted table_eq migrated declared ≡ true)
upgrade-declared_example = upgrade-declared versions versions-IsFree

downgrade-upgrade_example :
    (then_all (migrate initial_downgrade) (migrate initial_upgrade versions) ≡ some versions)
    × (then_all (migrate business_key_downgrade) (migrate upgrade versions)
        ≡ migrate initial_upgrade versions)
downgrade-upgrade_example =
    downgrade-upgrade versions versions-IsFree
      (refl, (refl, (refl, (refl, (refl, (refl, (refl, (refl, tt))))))))

abbrev body : DocumentCreate
body = record { filename = codes "a.txt"; text = codes "a" }

let_in : is_document_create body ≡ true
unfolding is_document_create
let_in = refl

stored-Fits_example :
    fits_in (limit_of (place_of (document_filename body))) (text_of (document_filename body)) ≡ true
stored-Fits_example = stored-Fits (document_filename body) let_in
