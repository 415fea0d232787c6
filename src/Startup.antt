-- ===== src/Startup.antt =====
-- app/config.py, and of app/api/app.py the choice of a provider and the start of the application. The
-- environment and the conversions `float` and `int` of a text are parameters.
use evidence_flow.Prelude.{
  ℕ, Bool, Option, none, some, List, [], ◌∷◌, ◌++◌, Text, codes, ◌==◌, nat_eq, list_eq,
  if◌then◌else◌, ℤ,
}
use evidence_flow.Domain.Validation.Dates.{Unicode}
use evidence_flow.Repositories.Models.{Env, Db}
use evidence_flow.Seed.{seed_documents}

-- `request_timeout_seconds` is in ticks.
pub record Settings : Type 0 where
  pub database_url : Text
  pub provider : Text
  pub openai_model : Text
  pub request_timeout_seconds : ℕ
  pub run_worker : Bool
  pub seed_on_start : Bool
  pub fixture_dir : Text
  pub auto_create_schema : Bool
  pub rate_limit_per_minute : ℤ
  pub max_body_bytes : ℤ

-- `os.getenv`, and the conversions; `none` is a ValueError.
pub record Surroundings : Type 0 where
  pub variable : Text → Option Text
  pub parse_float : Text → Option ℕ
  pub parse_int : Text → Option ℤ
  pub unicode : Unicode
  pub default_fixture_dir : Text

abbrev given_or : Text → Option Text → Text
given_or default none = default
given_or default (some t) = t

-- `os.getenv(name, default)`
abbrev getenv : Surroundings → Text → Text → Text
getenv s name default = given_or default (s.variable name)

lower_text : Unicode → Text → Text
lower_text u [] = []
lower_text u (c ∷ cs) = u.lower c ++ lower_text u cs

-- `os.getenv(name, default).lower() == "true"`
unfoldable pub flag : Surroundings → Text → Text → Bool
unfolding lower_text
flag s name default = lower_text s.unicode (getenv s name default) == codes "true"

infixl 10 ◌>>=◌
abbrev ◌>>=◌ : {A B : Type 0} → Option A → (A → Option B) → Option B
none >>= f = none
some a >>= f = f a

-- `Settings.from_env`
unfoldable pub from_env : Surroundings → Option Settings
unfolding flag
from_env s = do
  timeout ← s.parse_float (getenv s (codes "EVIDENCEFLOW_TIMEOUT_SECONDS") (codes "60"))
  rate_limit ← s.parse_int (getenv s (codes "EVIDENCEFLOW_RATE_LIMIT_PER_MINUTE") (codes "60"))
  max_body ← s.parse_int (getenv s (codes "EVIDENCEFLOW_MAX_BODY_BYTES") (codes "262144"))
  some (record {
    database_url =
        getenv s (codes "EVIDENCEFLOW_DATABASE_URL") (codes "sqlite:///./evidenceflow.db");
    provider = getenv s (codes "EVIDENCEFLOW_PROVIDER") (codes "fake");
    openai_model = getenv s (codes "EVIDENCEFLOW_OPENAI_MODEL") (codes "gpt-4.1-2025-04-14");
    request_timeout_seconds = timeout;
    run_worker = flag s (codes "EVIDENCEFLOW_RUN_WORKER") (codes "false");
    seed_on_start = flag s (codes "EVIDENCEFLOW_SEED_ON_START") (codes "false");
    fixture_dir = getenv s (codes "EVIDENCEFLOW_FIXTURE_DIR") s.default_fixture_dir;
    auto_create_schema = flag s (codes "EVIDENCEFLOW_AUTO_CREATE_SCHEMA") (codes "true");
    rate_limit_per_minute = rate_limit;
    max_body_bytes = max_body;
  })

-- `fixture_dirs`
unfoldable pub fixture_dirs : Settings → List Text
fixture_dirs s = (s.fixture_dir ++ codes "/invoices") ∷ (s.fixture_dir ++ codes "/held_out") ∷ []

-- The provider that is built: its arguments.
pub data Provided : Type 0 where
  openai : Text → ℕ → Provided
  fixtures : List Text → Provided

unfoldable pub build_provider : Settings → Provided
unfolding fixture_dirs
build_provider s =
    if s.provider == codes "openai"
    then openai s.openai_model s.request_timeout_seconds
    else fixtures (fixture_dirs s)

-- `_lifespan` up to the first `yield`: whether a worker runs in the background, and the database. `files`
-- are the names and texts in the directories of the fixtures.
unfoldable pub start :
    Env → (Text → Text) → (List Text → List (Text × Text)) → Settings → Db → Bool × Db
unfolding fixture_dirs
start env uuid5 files s db = (
  s.run_worker,
  if s.seed_on_start then (seed_documents env uuid5 (files (fixture_dirs s)) db).1 else db,
)
