-- ===== src/Migrations.antt =====
-- migrations: the operations of the scripts in migrations/versions, on a schema as a list of tables. What
-- alembic's `op` does is its documented behaviour: `none` is the error of the
-- database, which checks foreign keys as PostgreSQL does.
pub mod Initial
pub mod BusinessKey
pub mod Declared
pub mod Frame
pub mod Revisions
pub mod Start
pub mod Widths
use evidence_flow.Prelude.{
  ℕ, Bool, true, false, not, Option, none, some, List, [], ◌∷◌, ◌++◌, Text, ◌==◌, nat_eq, list_eq,
  all, any, filter, if◌then◌else◌, map_option,
}

-- `sa.String(length)`, `sa.Text()`, `sa.JSON()`, `sa.Integer()` and `sa.DateTime(timezone=True)`
pub data ColumnType : Type 0 where
  string : ℕ → ColumnType
  text json integer timestamp : ColumnType

pub record Column : Type 0 where
  pub name : Text
  pub type : ColumnType
  pub nullable : Bool

-- A foreign key has its column and the table whose `id` it refers to, a unique constraint its name and
-- its column.
pub data Constraint : Type 0 where
  primary_key : Text → Constraint
  foreign_key unique : Text → Text → Constraint

-- An index is its name and its column; none is unique.
pub record Table : Type 0 where
  pub name : Text
  pub columns : List Column
  pub constraints : List Constraint
  pub indexes : List (Text × Text)

abbrev pub Schema : Type 0
Schema = List Table

-- The calls of `op`, and of `batch_op` on a table.
pub data Operation : Type 0 where
  create_table : Table → Operation
  drop_table : Text → Operation
  create_index : Text → Text × Text → Operation
  drop_index : Text → Text → Operation
  add_column : Text → Column → Operation
  drop_column : Text → Text → Operation
  create_unique_constraint : Text → Text → Text → Operation
  drop_constraint : Text → Text → Operation

abbrev pub not_null : Text → ColumnType → Column
not_null name type = record { name = name; type = type; nullable = false }

abbrev pub nullable : Text → ColumnType → Column
nullable name type = record { name = name; type = type; nullable = true }

abbrev pub has_table : Text → Schema → Bool
has_table name = any (λ (t : Table). t.name == name)

-- A change of the table with a name.
unfoldable pub alter : Text → (Table → Option Table) → Schema → Option Schema
alter name change [] = none
alter name change (t ∷ ts) =
    let rest = alter name change ts in
    if t.name == name then map_option (λ u. u ∷ ts) (change t) else map_option (λ us. t ∷ us) rest

unfoldable pub remove : Text → Schema → Option Schema
remove name [] = none
remove name (t ∷ ts) =
    let rest = remove name ts in if t.name == name then some ts else map_option (λ us. t ∷ us) rest

-- What a test picks is taken away, if there is any.
abbrev taken : {A : Type 0} → (A → Bool) → List A → Option (List A)
taken test xs = if any test xs then some (filter (λ x. not (test x)) xs) else none

abbrev is_constraint : Text → Constraint → Bool
is_constraint name (unique own column) = own == name
is_constraint name _ = false

abbrev pub has_column : Text → Table → Bool
has_column name t = any (λ (c : Column). c.name == name) t.columns

-- The changes of one table.
abbrev pub with_index : Text × Text → Table → Option Table
with_index index t =
    if has_column index.1 t then some (record t { indexes = t.indexes ++ index ∷ [] }) else none

abbrev pub without_index : Text → Table → Option Table
without_index name t =
    map_option (λ left. record t { indexes = left }) (taken (λ i. i.0 == name) t.indexes)

abbrev pub with_column : Column → Table → Option Table
with_column column t =
    if has_column column.name t
    then none
    else some (record t { columns = t.columns ++ column ∷ [] })

abbrev pub without_column : Text → Table → Option Table
without_column name t =
    map_option (λ left. record t { columns = left })
      (taken (λ (c : Column). c.name == name) t.columns)

abbrev pub with_unique : Text → Text → Table → Option Table
with_unique name column t =
    if has_column column t
    then some (record t { constraints = t.constraints ++ unique name column ∷ [] })
    else none

abbrev pub without_constraint : Text → Table → Option Table
without_constraint name t =
    map_option (λ left. record t { constraints = left }) (taken (is_constraint name) t.constraints)

-- The tables that foreign keys refer to.
abbrev pub targets : List Constraint → List Text
targets [] = []
targets (foreign_key column table ∷ constraints) = table ∷ targets constraints
targets (primary_key column ∷ constraints) = targets constraints
targets (unique name column ∷ constraints) = targets constraints

-- Whether a table refers to the one with a name.
abbrev pub refers : Text → Schema → Bool
refers name = any (λ (t : Table). any (λ target. target == name) (targets t.constraints))

-- A new table may refer to those that are there and to itself, and one to which another table refers
-- is not dropped.
abbrev pub resolved : Table → Schema → Option Schema
resolved t s = if all (λ name. has_table name s) (targets t.constraints) then some s else none

abbrev pub unless_referred : Text → Schema → Option Schema
unless_referred name s = if refers name s then none else some s

abbrev pub then_all : (Schema → Option Schema) → Option Schema → Option Schema
then_all next none = none
then_all next (some s) = next s

unfoldable pub apply : Operation → Schema → Option Schema
unfolding alter remove
apply (create_table t) s = if has_table t.name s then none else resolved t (s ++ t ∷ [])
apply (drop_table name) s = then_all (unless_referred name) (remove name s)
apply (create_index table index) s = alter table (with_index index) s
apply (drop_index table name) s = alter table (without_index name) s
apply (add_column table column) s = alter table (with_column column) s
apply (drop_column table name) s = alter table (without_column name) s
apply (create_unique_constraint table name column) s = alter table (with_unique name column) s
apply (drop_constraint table name) s = alter table (without_constraint name) s

-- The operations of a script, in order.
unfoldable pub migrate : List Operation → Schema → Option Schema
unfolding apply
migrate [] s = some s
migrate (operation ∷ operations) s = then_all (migrate operations) (apply operation s)
