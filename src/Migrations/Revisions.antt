-- ===== src/Migrations/Revisions.antt =====
-- The two revisions together, up and down, and the tables that the classes declare.
use evidence_flow.Prelude.{
  ◌≡◌, refl, sym, ap, ◌∙◌, Bool, true, false, ◌&&◌, Option, none, some, List, [], ◌∷◌, ◌++◌, Text,
  ◌==◌, nat_eq, list_eq, nat_beq, map, map_option, all, any, length, list_beq, not,
}
use evidence_flow.Migrations.{
  ColumnType, Column, Constraint, Table, Schema, Operation, string, text, json, integer, timestamp,
  primary_key, foreign_key, unique, then_all, migrate,
}
use evidence_flow.Migrations.Initial.{initial_upgrade, initial_downgrade}
use evidence_flow.Migrations.BusinessKey.{business_key_upgrade, business_key_downgrade}
use evidence_flow.Migrations.Declared.{declared}
use evidence_flow.Migrations.Frame.{IsFree, IsUnreferred, IsOn, IsOn-of_all, migrate-append}

-- From no revision to the head.
abbrev pub upgrade : List Operation
upgrade = initial_upgrade ++ business_key_upgrade

abbrev pub own_names : List Text
own_names = map (λ (t : Table). t.name) declared

abbrev after_upgrade : Option Schema → Schema
after_upgrade none = []
after_upgrade (some s) = s

abbrev pub migrated : Schema
migrated = after_upgrade (migrate upgrade [])

pub upgrade_fresh : migrate upgrade [] ≡ some migrated
unfolding migrate list_beq
upgrade_fresh = refl

abbrev initial : Schema
initial = after_upgrade (migrate initial_upgrade [])

-- Tables with the same columns, constraints and indexes, in whatever order.
abbrev type_eq : ColumnType → ColumnType → Bool
type_eq (string m) (string n) = nat_beq m n
type_eq text text = true
type_eq json json = true
type_eq integer integer = true
type_eq timestamp timestamp = true
type_eq _ _ = false

abbrev same_answer : Bool → Bool → Bool
same_answer true b = b
same_answer false b = not b

abbrev column_eq : Column → Column → Bool
column_eq a b = a.name == b.name && type_eq a.type b.type && same_answer a.nullable b.nullable

abbrev constraint_eq : Constraint → Constraint → Bool
constraint_eq (primary_key a) (primary_key b) = a == b
constraint_eq (foreign_key a t) (foreign_key b u) = a == b && t == u
constraint_eq (unique a c) (unique b d) = a == b && c == d
constraint_eq _ _ = false

abbrev index_eq : Text × Text → Text × Text → Bool
index_eq a b = a.0 == b.0 && a.1 == b.1

-- As many items, and each of the first among the second.
abbrev pub permuted : {A : Type 0} → (A → A → Bool) → List A → List A → Bool
permuted same xs ys = nat_beq (length xs) (length ys) && all (λ x. any (same x) ys) xs

abbrev pub table_eq : Table → Table → Bool
table_eq a b =
    a.name == b.name
    && permuted column_eq a.columns b.columns
    && permuted constraint_eq a.constraints b.constraints
    && permuted index_eq a.indexes b.indexes

append_nil : (s : Schema) → s ++ [] ≡ s
append_nil [] = refl
append_nil (t ∷ ts) = ap (λ l. t ∷ l) (append_nil ts)

-- Operations that drop no table.
upgrade-IsOn : IsOn own_names [] upgrade
unfolding list_beq
upgrade-IsOn = IsOn-of_all own_names [] upgrade refl

initial_upgrade-IsOn : IsOn own_names [] initial_upgrade
unfolding list_beq
initial_upgrade-IsOn = IsOn-of_all own_names [] initial_upgrade refl

business_key_downgrade-IsOn : IsOn own_names [] business_key_downgrade
unfolding list_beq
business_key_downgrade-IsOn = IsOn-of_all own_names [] business_key_downgrade refl

initial_downgrade-IsOn : IsOn own_names own_names initial_downgrade
unfolding list_beq
initial_downgrade-IsOn = IsOn-of_all own_names own_names initial_downgrade refl

-- What a script adds to the tables that are there, from no table of its own.
upgrade_beside :
    (operations : List Operation) (s : Schema)
    → IsFree own_names s
    → IsOn own_names [] operations
    → migrate operations s ≡ map_option (λ u. s ++ u) (migrate operations [])
upgrade_beside operations s free on =
    ap (migrate operations) (sym (append_nil s))
    ∙ migrate-append own_names [] operations s [] free tt on

-- From a database without the program's tables the two revisions add, to the tables that are there, the
-- tables that the classes declare, with the same columns, constraints and indexes in some order.
pub upgrade-declared :
    (s : Schema)
    → IsFree own_names s
    → (migrate upgrade s ≡ some (s ++ migrated)) × (permuted table_eq migrated declared ≡ true)
unfolding migrate list_beq
upgrade-declared s free = (upgrade_beside upgrade s free upgrade-IsOn, refl)

-- From a database without the program's tables, and without a foreign key to one of them: the first
-- revision and its way back succeed and leave the database as it was, and from the head the way back
-- of the second succeeds and leaves the database that the first one made.
pub downgrade-upgrade :
    (s : Schema)
    → IsFree own_names s
    → IsUnreferred own_names s
    → (then_all (migrate initial_downgrade) (migrate initial_upgrade s) ≡ some s)
      × (then_all (migrate business_key_downgrade) (migrate upgrade s) ≡ migrate initial_upgrade s)
unfolding migrate list_beq
downgrade-upgrade s free apart =
    let first : migrate initial_upgrade s ≡ some (s ++ initial) =
      upgrade_beside initial_upgrade s free initial_upgrade-IsOn in
    let both : migrate upgrade s ≡ some (s ++ migrated) = (upgrade-declared s free).0 in
    (
      ap (then_all (migrate initial_downgrade)) first
          ∙ migrate-append own_names own_names initial_downgrade s initial free apart
              initial_downgrade-IsOn
          ∙ ap some (append_nil s),
      ap (then_all (migrate business_key_downgrade)) both
          ∙ migrate-append own_names [] business_key_downgrade s migrated free tt
              business_key_downgrade-IsOn
          ∙ sym first,
    )
