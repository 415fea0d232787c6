-- ===== src/Seed.antt =====
-- app/seed.py: the documents that a fresh database starts with. The files, their names in order with
-- their texts, and `uuid5` in the seed's namespace are arguments.
use evidence_flow.Prelude.{ℕ, some, none, List, [], ◌∷◌, Text, length}
use evidence_flow.Domain.Failures.{default_max_attempts}
use evidence_flow.Repositories.Models.{Document, extract, Env, Db}
use evidence_flow.Repositories.Documents.{create_document, list_documents}
use evidence_flow.Workflows.Queue.{enqueue}

-- One turn of the loop.
unfoldable pub seed_file : Env → (Text → Text) → Text → Text → Db → Db
seed_file env uuid5 name text db =
    let (document, created) = create_document env name text (some (uuid5 name)) db in
    (enqueue env extract document.id none default_max_attempts created).1

unfoldable pub seed_files : Env → (Text → Text) → List (Text × Text) → Db → Db
unfolding seed_file
seed_files env uuid5 [] db = db
seed_files env uuid5 ((name, text) ∷ files) db =
    seed_files env uuid5 files (seed_file env uuid5 name text db)

-- A database that has documents is left alone.
unfoldable pub seed_into : Env → (Text → Text) → List (Text × Text) → List Document → Db → ℕ × Db
unfolding seed_files
seed_into env uuid5 files [] db = (length files, seed_files env uuid5 files db)
seed_into env uuid5 files (d ∷ ds) db = (0, db)

unfoldable pub seed_documents : Env → (Text → Text) → List (Text × Text) → Db → ℕ × Db
unfolding seed_into
seed_documents env uuid5 files db = seed_into env uuid5 files (list_documents db) db
