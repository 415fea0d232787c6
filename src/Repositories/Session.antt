-- ===== src/Repositories/Session.antt =====
-- app/repositories/session.py: `session_scope`. A session sees the database as it was committed and its
-- own changes. Identifiers and times that were drawn stay drawn after a rollback.
use evidence_flow.Prelude.{Result, ok, err, Exec}
use evidence_flow.Domain.Failures.{Error}
use evidence_flow.Repositories.Models.{Db}

pub record Session : Type 0 where
  pub committed : Db
  pub db : Db

abbrev pub opened : Db → Session
opened db = record { committed = db; db = db }

unfoldable pub commit : Session → Session
commit s = record s { committed = s.db }

unfoldable pub rollback : Session → Session
rollback s = record s { db = record s.committed { draws = s.db.draws } }

-- The code of a service, run in a session.
abbrev pub in_session : {A : Type 0} → Exec Db Error A → Exec Session Error A
in_session f s = let (result, db) = f s.db in (result, record s { db = db })

-- What the end of the block does with a result or an exception, and the database that it leaves.
unfoldable pub close_session : {A : Type 0} → Result Error A × Session → Result Error A × Db
unfolding commit rollback
close_session (ok a, s) = (ok a, (commit s).db)
close_session (err e, s) = (err e, (rollback s).db)

unfoldable pub session_scope : {A : Type 0} → Exec Session Error A → Exec Db Error A
unfolding close_session
session_scope body db = close_session (body (opened db))
