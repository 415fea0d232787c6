-- ===== src/Migrations/Frame.antt =====
-- The operations on some tables leave all others as they are.
use evidence_flow.Prelude.{
  Bool, ◌&&◌, ◌≡◌, refl, ap, ◌∙◌, subst, true, false, All, All-map_of, any, all, Option, none, some,
  List, [], ◌∷◌, ◌++◌, Text, arith, ◌==◌, ==_iff, nat_eq, list_eq, map_option, Bool-cases, inl, inr,
}
use evidence_flow.Migrations.{
  Table, Schema, Operation, create_table, drop_table, create_index, drop_index, add_column,
  drop_column, create_unique_constraint, drop_constraint, has_table, alter, remove, with_index,
  without_index, with_column, without_column, with_unique, without_constraint, apply, then_all,
  migrate, targets, refers, unless_referred,
}

-- None of these tables is there.
abbrev pub IsFree : List Text → Schema → Type 0
IsFree names s = All (λ name. has_table name s ≡ false) names

-- No table refers to these.
abbrev pub IsUnreferred : List Text → Schema → Type 0
IsUnreferred names s = All (λ name. refers name s ≡ false) names

-- The operation is on these tables only, refers to these only, and drops some of them only.
abbrev is_in : Text → List Text → Bool
is_in name = any (λ n. n == name)

abbrev is_on : List Text → List Text → Operation → Bool
is_on names dropped (create_table t) =
    is_in t.name names && all (λ name. is_in name names) (targets t.constraints)
is_on names dropped (drop_table name) = is_in name names && is_in name dropped
is_on names dropped (create_index table index) = is_in table names
is_on names dropped (drop_index table name) = is_in table names
is_on names dropped (add_column table column) = is_in table names
is_on names dropped (drop_column table name) = is_in table names
is_on names dropped (create_unique_constraint table name column) = is_in table names
is_on names dropped (drop_constraint table name) = is_in table names

abbrev pub IsOn : List Text → List Text → List Operation → Type 0
IsOn names dropped = All (λ operation. is_on names dropped operation ≡ true)

pub IsOn-of_all :
    (names dropped : List Text) (operations : List Operation)
    → all (is_on names dropped) operations ≡ true
    → IsOn names dropped operations
IsOn-of_all names dropped [] h = tt
IsOn-of_all names dropped (operation ∷ operations) h =
    (ground arith, IsOn-of_all names dropped operations (ground arith))

behind_option :
    {A : Type 0} (f g : A → A) (x : Option A)
    → map_option f (map_option g x) ≡ map_option (λ a. f (g a)) x
behind_option f g none = refl
behind_option f g (some a) = refl

pub has_table-append :
    (name : Text) (s own : Schema)
    → has_table name s ≡ false
    → has_table name (s ++ own) ≡ has_table name own
has_table-append name [] own h = refl
has_table-append name (t ∷ ts) own h = elim (Bool-cases (t.name == name)) [
  | inl same ↦ absurd (ground arith)
  | inr other ↦ rw other (has_table-append name ts own (rw other at h))
]

map_option_id : {A : Type 0} (x : Option A) → x ≡ map_option (λ a. a) x
map_option_id none = refl
map_option_id (some a) = refl

alter-append :
    (name : Text) (change : Table → Option Table) (s own : Schema)
    → has_table name s ≡ false
    → alter name change (s ++ own) ≡ map_option (λ u. s ++ u) (alter name change own)
unfolding alter
alter-append name change [] own h = map_option_id (alter name change own)
alter-append name change (t ∷ ts) own h = elim (Bool-cases (t.name == name)) [
  | inl same ↦ absurd (ground arith)
  | inr other ↦ rw other (
      ap (map_option (λ us. t ∷ us)) (alter-append name change ts own (rw other at h))
      ∙ behind_option (λ us. t ∷ us) (λ u. ts ++ u) (alter name change own))
]

remove-append :
    (name : Text) (s own : Schema)
    → has_table name s ≡ false
    → remove name (s ++ own) ≡ map_option (λ u. s ++ u) (remove name own)
unfolding remove
remove-append name [] own h = map_option_id (remove name own)
remove-append name (t ∷ ts) own h = elim (Bool-cases (t.name == name)) [
  | inl same ↦ absurd (ground arith)
  | inr other ↦ rw other (
      ap (map_option (λ us. t ∷ us)) (remove-append name ts own (rw other at h))
      ∙ behind_option (λ us. t ∷ us) (λ u. ts ++ u) (remove name own))
]

append_assoc : (xs ys zs : Schema) → (xs ++ ys) ++ zs ≡ xs ++ (ys ++ zs)
append_assoc [] ys zs = refl
append_assoc (x ∷ xs) ys zs = ap (λ l. x ∷ l) (append_assoc xs ys zs)

refers-append :
    (name : Text) (s own : Schema)
    → refers name s ≡ false
    → refers name (s ++ own) ≡ refers name own
refers-append name [] own h = refl
refers-append name (t ∷ ts) own h =
    let points = any (λ target. target == name) (targets t.constraints) in
    let ih = refers-append name ts own (ground arith) in
    let apart : points ≡ false = ground arith in rw apart ih

resolved-append :
    (names : List Text) (s own : Schema)
    → All (λ name. has_table name s ≡ false) names
    → all (λ name. has_table name (s ++ own)) names ≡ all (λ name. has_table name own) names
resolved-append [] s own h = refl
resolved-append (name ∷ names) s own h =
    ground (arith, has_table-append name s own h.0, resolved-append names s own h.1)

dropped-append :
    (name : Text) (s : Schema) (rest : Option Schema)
    → refers name s ≡ false
    → then_all (unless_referred name) (map_option (λ u. s ++ u) rest)
      ≡ map_option (λ u. s ++ u) (then_all (unless_referred name) rest)
dropped-append name s none h = refl
dropped-append name s (some rest) h = elim (Bool-cases (refers name rest)) [
  | inl e ↦ rw (refers-append name s rest h, e) refl
  | inr e ↦ rw (refers-append name s rest h, e) refl
]

-- The tables of a schema have nothing to do with an operation.
abbrev IsApart : Schema → Operation → Type 0
IsApart s (create_table t) =
    (has_table t.name s ≡ false) × All (λ name. has_table name s ≡ false) (targets t.constraints)
IsApart s (drop_table name) = (has_table name s ≡ false) × (refers name s ≡ false)
IsApart s (create_index table index) = has_table table s ≡ false
IsApart s (drop_index table name) = has_table table s ≡ false
IsApart s (add_column table column) = has_table table s ≡ false
IsApart s (drop_column table name) = has_table table s ≡ false
IsApart s (create_unique_constraint table name column) = has_table table s ≡ false
IsApart s (drop_constraint table name) = has_table table s ≡ false

apply-append :
    (operation : Operation) (s own : Schema)
    → IsApart s operation
    → apply operation (s ++ own) ≡ map_option (λ u. s ++ u) (apply operation own)
unfolding apply
apply-append (create_table t) s own h =
    let same = has_table-append t.name s own h.0 in
    let behind = append_assoc s own (t ∷ []) in
    let refs = resolved-append (targets t.constraints) s (own ++ t ∷ []) h.1 in
    elim (Bool-cases (has_table t.name own)) [
      | inl there ↦ rw (same, there) refl
      | inr free ↦
          elim (Bool-cases (all (λ name. has_table name (own ++ t ∷ [])) (targets t.constraints))) [
            | inl good ↦ rw (same, free, behind, refs, good) refl
            | inr bad ↦ rw (same, free, behind, refs, bad) refl
          ]
    ]
apply-append (drop_table name) s own h =
    ap (then_all (unless_referred name)) (remove-append name s own h.0)
    ∙ dropped-append name s (remove name own) h.1
apply-append (create_index table index) s own h = alter-append table (with_index index) s own h
apply-append (drop_index table name) s own h = alter-append table (without_index name) s own h
apply-append (add_column table column) s own h = alter-append table (with_column column) s own h
apply-append (drop_column table name) s own h = alter-append table (without_column name) s own h
apply-append (create_unique_constraint table name column) s own h =
    alter-append table (with_unique name column) s own h
apply-append (drop_constraint table name) s own h =
    alter-append table (without_constraint name) s own h

module _ (s : Schema) where
  then_all-append :
      (operations : List Operation)
      → ((own : Schema)
          → migrate operations (s ++ own) ≡ map_option (λ u. s ++ u) (migrate operations own))
      → (next : Option Schema)
      → then_all (migrate operations) (map_option (λ u. s ++ u) next)
        ≡ map_option (λ u. s ++ u) (then_all (migrate operations) next)
  then_all-append operations ih none = refl
  then_all-append operations ih (some own) = ih own

  operations-append :
      (operations : List Operation)
      → All (λ operation. IsApart s operation) operations
      → (own : Schema)
      → migrate operations (s ++ own) ≡ map_option (λ u. s ++ u) (migrate operations own)
  unfolding migrate
  operations-append [] h own = refl
  operations-append (operation ∷ operations) h own =
      ap (then_all (migrate operations)) (apply-append operation s own h.0)
      ∙ then_all-append operations (operations-append operations h.1) (apply operation own)

-- What holds of all names holds of one among them.
All-is_in :
    (P : Text → Type 0) (names : List Text) (name : Text)
    → All P names
    → is_in name names ≡ true
    → P name
All-is_in P [] name all_P h = absurd (cc)
All-is_in P (n ∷ names) name all_P h = elim (Bool-cases (n == name)) [
  | inl same ↦ subst P ((==_iff n name).0 same) all_P.0
  | inr other ↦ All-is_in P names name all_P.1 (rw other at h)
]

All-all_in :
    (P : Text → Type 0) (names some_names : List Text)
    → All P names
    → all (λ name. is_in name names) some_names ≡ true
    → All P some_names
All-all_in P names [] all_P h = tt
All-all_in P names (name ∷ more) all_P h =
    (All-is_in P names name all_P (ground arith), All-all_in P names more all_P (ground arith))

on-IsApart :
    (names dropped : List Text) (s : Schema) (operation : Operation)
    → IsFree names s
    → IsUnreferred dropped s
    → is_on names dropped operation ≡ true
    → IsApart s operation
on-IsApart names dropped s (create_table t) free apart h = (
  All-is_in (λ n. has_table n s ≡ false) names t.name free (ground arith),
  All-all_in (λ n. has_table n s ≡ false) names (targets t.constraints) free (ground arith),
)
on-IsApart names dropped s (drop_table name) free apart h = (
  All-is_in (λ n. has_table n s ≡ false) names name free (ground arith),
  All-is_in (λ n. refers n s ≡ false) dropped name apart (ground arith),
)
on-IsApart names dropped s (create_index table index) free apart h =
    All-is_in (λ n. has_table n s ≡ false) names table free h
on-IsApart names dropped s (drop_index table name) free apart h =
    All-is_in (λ n. has_table n s ≡ false) names table free h
on-IsApart names dropped s (add_column table column) free apart h =
    All-is_in (λ n. has_table n s ≡ false) names table free h
on-IsApart names dropped s (drop_column table name) free apart h =
    All-is_in (λ n. has_table n s ≡ false) names table free h
on-IsApart names dropped s (create_unique_constraint table name column) free apart h =
    All-is_in (λ n. has_table n s ≡ false) names table free h
on-IsApart names dropped s (drop_constraint table name) free apart h =
    All-is_in (λ n. has_table n s ≡ false) names table free h

-- A script that is on some tables only does the same whatever other tables there are, if these do not
-- refer to a table that it drops.
pub migrate-append :
    (names dropped : List Text) (operations : List Operation) (s own : Schema)
    → IsFree names s
    → IsUnreferred dropped s
    → IsOn names dropped operations
    → migrate operations (s ++ own) ≡ map_option (λ u. s ++ u) (migrate operations own)
migrate-append names dropped operations s own free apart on =
    operations-append s operations
      (All-map_of (λ operation h. on-IsApart names dropped s operation free apart h) operations on)
      own
