-- ===== src/Lib.antt =====
-- EvidenceFlow: extraction of invoices with evidence, deterministic validation, approval by a reviewer,
-- and a write to a destination at most once for each approved version.
--
-- The parts and how they interact:
--   Domain/         app/domain: the search for evidence (`find_span`, `verify_draft`), the rules
--                   (`validate`), the idempotency key, the schema of a draft with its converters, the errors.
--   Repositories/   app/repositories: `Models` has the rows and the database `Db`, `Documents` the queries
--                   and inserts. A function that takes a session takes and returns a `Db`; what can raise
--                   returns a `Result` beside it, and the database is what the raising code leaves, so
--                   the caller decides on commit or rollback. `Session` is `session_scope`, with the
--                   committed database beside the one that the session sees.
--   Providers/      app/providers: the destination `create_record` with its unique constraints, and the one in
--                   memory. An extraction provider is an `Intake`, a parameter of the services; `OpenAi`
--                   and `Fake` are two of them, the first with its client as a parameter.
--   Services/       app/services: `extract_document`, `validate_extraction`, `approve_extraction`,
--                   `write_approved_record`. A long function is cut at its early returns into functions
--                   that take the value just looked up, so that each branch can be named.
--   Workflows/      app/workflows: `claim`, `fail`, `reclaim_expired` of the job queue, and `run_once` of a
--                   worker, which runs the services on a claimed job.
--   Api/            app/api: the JSON routes and the pages of the reviewer, each a function on its session,
--                   the views, the segments of the page and the rate limit.
--   Evals/          evals/run.py and evals/cost.py: the replay of the evaluation set through the worker, the
--                   scores, and the figures of the report.
--   System/         the whole program: a transaction is a request, the start of the application, or one of
--                   the three sessions of a worker, and `perform_all` does any list of them, one after
--                   another, on one database. `Invariant` is what the changes of single tables owe to an
--                   invariant; `Services`, `Writes`, `Queue`, `Requests` and `Transactions` build the
--                   program on them. `History`, `Approved`, `Truth`, `Jobs` and `Audit` each have an
--                   invariant, `Written` joins two of them, and `Drain` is about a worker on its own.
--   Migrations/     migrations/versions: the revisions as operations on a schema, up and down, the tables that
--                   the classes of app/repositories/models.py declare, `build_session_factory`, and the
--                   lengths of columns beside what is stored in them. The operations of alembic do what
--                   its documentation says.
--   Seed, Labels    app/seed.py and evals/labels.py.
--   Startup         app/config.py, the choice of a provider and the start of app/api/app.py.
--   Prelude/        tests, lists, texts, integers and results that the parts share.
--   Samples/        concrete runs.
--
-- Texts are lists of code points. What lies outside is the record `Env` (identifiers, clock, digest,
-- canonical JSON, character database); identifiers and times are drawn from it in order, counted by
-- `draws`. Times are numbers of ticks, so `as_utc` has no counterpart. Sums, differences and products of
-- decimals are rounded to 28 digits, half to even. A race on the unique key of `crm_write` is an argument:
-- the database that the session sees after its rollback. In `System` transactions are serial, so that race
-- does not occur there, and the destination is the program's own. Messages of errors are kept as the values
-- that they interpolate.
--
-- Loops are structural recursion. `drain` recurs on the limit that the source gives it. The only fuel is
-- that of `str_of_int`, one more than the number itself, which has fewer digits than that, that of
-- `excess`, the number itself (`excess-fits`), and the number of rounds after which `run_forever` finds its
-- stop event set.
--
-- Not modelled: pydantic's validation of a payload (a parameter, with what it returns or raises), the
-- network clients and the request for a structured answer, HTML and the texts of redirects, the assembly of
-- the application, the running of alembic, threads, the prose of the evaluation's report and the scripts:
-- I/O, or code that only calls what is modelled here.
pub mod Prelude
pub mod Domain
pub mod Repositories
pub mod Providers
pub mod Services
pub mod Workflows
pub mod Api
pub mod Seed
pub mod Startup
pub mod System
pub mod Migrations
pub mod Labels
pub mod Evals
pub mod Samples
