-- ===== src/Workflows/Queue/Leases.antt =====
-- A job is in the hands of one worker while its lease runs.
pub mod Held
pub mod Found
use evidence_flow.Prelude.{
  ℕ, ◌+◌, ◌<◌, ◌≡◌, ◌≢◌, refl, sym, ap, ◌∙◌, Bool, true, some, List, [], ◌∷◌, Text, arith, ◌==◌,
  ==_iff, nat_eq, list_eq, find, filter, length, map, nat_beq, All, Distinct, Bool-cases, inl, inr,
  ◌⊎◌, if◌then◌else◌, some_injective,
}
use evidence_flow.Repositories.Models.{Job, Db}
use evidence_flow.Workflows.Queue.{
  is_open, is_free, is_claimable, claimed_by, claim_update, claim_ids, get_job,
}

-- The primary key of the table.
abbrev pub DistinctJobs : Db → Type 0
DistinctJobs db = Distinct (λ (j : Job). j.id) db.jobs

abbrev pub change_if : (Job → Bool) → (Job → Job) → Job → Job
change_if test change j = if test j then change j else j

-- What a statement that asks for one identifier meets.
record OneRow (k : Text) (moment : ℕ) (rows : List Job) : Type 0 where
  row : Job
  met : filter (is_claimable k moment) rows ≡ row ∷ []
  first : find (λ j. j.id == k) rows ≡ some row
  claimable : is_claimable k moment row ≡ true

none_claimable :
    (k : Text) (moment : ℕ) (j : Job) (rows : List Job)
    → j.id ≡ k
    → All (λ r. j.id ≢ r.id) rows
    → filter (is_claimable k moment) rows ≡ []
none_claimable k moment j [] e h = refl
none_claimable k moment j (r ∷ rows) e h = elim (Bool-cases (r.id == k)) [
  | inl hit ↦ absurd (h.0 (e ∙ sym ((==_iff r.id k).0 hit)))
  | inr miss ↦ rw miss (none_claimable k moment j rows e h.1)
]

one_row :
    (k : Text) (moment : ℕ) (rows : List Job)
    → Distinct (λ (j : Job). j.id) rows
    → (filter (is_claimable k moment) rows ≡ []) ⊎ OneRow k moment rows
one_row k moment [] d = inl refl
one_row k moment (j ∷ rows) d = elim (Bool-cases (j.id == k)) [
  | inr miss ↦ elim (one_row k moment rows d.1) [
    | inl without ↦ inl (rw miss without)
    | inr o ↦ inr (record {
      row = o.row;
      met = rw miss o.met;
      first = rw miss o.first;
      claimable = o.claimable;
    })
  ]
  | inl hit ↦
      let without = none_claimable k moment j rows ((==_iff j.id k).0 hit) d.0 in
      elim (Bool-cases (is_claimable k moment j)) [
        | inl open_now ↦ inr (record {
          row = j;
          met = rw (open_now, without) refl;
          first = rw hit refl;
          claimable = open_now;
        })
        | inr busy ↦ inl (rw (busy, without) refl)
      ]
]

update_none :
    (test : Job → Bool) (change : Job → Job) (rows : List Job)
    → filter test rows ≡ []
    → map (change_if test change) rows ≡ rows
update_none test change [] h = refl
update_none test change (j ∷ rows) h = elim (Bool-cases (test j)) [
  | inl open_now ↦ absurd (let e = rw open_now at h in cc)
  | inr without ↦ rw without (ap (λ l. j ∷ l) (update_none test change rows (rw without at h)))
]

-- A claim that changed one row.
module _ (worker_id : Text) (lease moment : ℕ) where
  find_claimed :
      (k : Text) (rows : List Job) (j : Job)
      → find (λ j. j.id == k) rows ≡ some j
      → is_claimable k moment j ≡ true
      → find
          (λ j. j.id == k)
          (map (change_if (is_claimable k moment) (claimed_by worker_id lease moment)) rows)
        ≡ some (claimed_by worker_id lease moment j)
  find_claimed k [] j e h = absurd (cc)
  find_claimed k (r ∷ rows) j e h = elim (Bool-cases (r.id == k)) [
    | inl hit ↦
        let same : r ≡ j = some_injective (rw hit at e) in
        rw same (rw h (rw (let g : (j.id == k) ≡ true = ground arith in g) refl))
    | inr miss ↦ rw miss (rw miss (find_claimed k rows j (rw miss at e) h))
  ]

-- What a claim found, and left.
pub record IsClaimed (worker_id : Text) (lease moment : ℕ) (db after : Db) (job : Job)
    : Type 0 where
  pub before : Job
  pub stored : get_job job.id db ≡ some before
  pub was_open : is_open before.status ≡ true
  pub was_free : is_free moment before.lease_expires_at ≡ true
  pub claimed : job ≡ claimed_by worker_id lease moment before
  pub row : get_job job.id after ≡ some job

module _ (worker_id : Text) (lease moment : ℕ) where
  updated_none :
      (k : Text) (db : Db)
      → filter (is_claimable k moment) db.jobs ≡ []
      → claim_update worker_id lease moment k db ≡ db
  unfolding claim_update
  updated_none k db h =
      ap (λ rows. record db { jobs = rows })
        (update_none (is_claimable k moment) (claimed_by worker_id lease moment) db.jobs h)

  row-IsClaimed :
      (k : Text) (db : Db) (o : OneRow k moment db.jobs) (job : Job)
      → get_job k (claim_update worker_id lease moment k db) ≡ some job
      → IsClaimed worker_id lease moment db (claim_update worker_id lease moment k db) job
  unfolding claim_update get_job
  row-IsClaimed k db o job h =
      let hit = find_claimed worker_id lease moment k db.jobs o.row o.first o.claimable in
      let same : claimed_by worker_id lease moment o.row ≡ job = some_injective (sym hit ∙ h) in
      let has_key : o.row.id ≡ k = (==_iff o.row.id k).0 (let e = o.claimable in ground arith) in
      let key : job.id ≡ k = ap (λ (j : Job). j.id) (sym same) ∙ has_key in
      record {
        before = o.row;
        stored = rw key o.first;
        was_open = (let e = o.claimable in ground arith);
        was_free = (let e = o.claimable in ground arith);
        claimed = sym same;
        row = ap (λ i. get_job i (claim_update worker_id lease moment k db)) key ∙ h;
      }

  pub claim_ids-IsClaimed :
      (ids : List Text) (db : Db) (job : Job)
      → DistinctJobs db
      → (claim_ids worker_id lease moment ids db).0 ≡ some job
      → IsClaimed worker_id lease moment db (claim_ids worker_id lease moment ids db).1 job
  unfolding claim_ids
  claim_ids-IsClaimed [] db job d h = absurd (cc)
  claim_ids-IsClaimed (k ∷ ids) db job d h = elim (one_row k moment db.jobs d) [
    | inl without ↦ rw without (
        rw (updated_none k db without)
          (claim_ids-IsClaimed ids db job d (rw (updated_none k db without) at (rw without at h))))
    | inr o ↦ rw o.met (row-IsClaimed k db o job (rw o.met at h))
  ]

-- A change that keeps the identifiers keeps them distinct.
All-map_id :
    (g : Job → Job)
    → ((j : Job) → (g j).id ≡ j.id)
    → (j : Job) (rows : List Job) → All (λ r. j.id ≢ r.id) rows
    → All (λ r. (g j).id ≢ r.id) (map g rows)
All-map_id g same j [] h = tt
All-map_id g same j (r ∷ rows) h =
    (λ e. h.0 (sym (same j) ∙ e ∙ same r), All-map_id g same j rows h.1)

pub Distinct-map :
    (g : Job → Job)
    → ((j : Job) → (g j).id ≡ j.id)
    → (rows : List Job) → Distinct (λ (j : Job). j.id) rows
    → Distinct (λ (j : Job). j.id) (map g rows)
Distinct-map g same [] d = tt
Distinct-map g same (j ∷ rows) d = (All-map_id g same j rows d.0, Distinct-map g same rows d.1)

pub change_if-id :
    (test : Job → Bool) (change : Job → Job)
    → ((j : Job) → (change j).id ≡ j.id)
    → (j : Job) → (change_if test change j).id ≡ j.id
change_if-id test change same j = elim (Bool-cases (test j)) [
  | inl e ↦ rw e (same j)
  | inr e ↦ rw e refl
]

pub claim_ids-DistinctJobs :
    (worker_id : Text) (lease moment : ℕ) (ids : List Text) (db : Db)
    → DistinctJobs db
    → DistinctJobs (claim_ids worker_id lease moment ids db).1
unfolding claim_ids claim_update
claim_ids-DistinctJobs worker_id lease moment [] db d = d
claim_ids-DistinctJobs worker_id lease moment (k ∷ ids) db d =
    let test = is_claimable k moment in
    let kept =
      Distinct-map (change_if test (claimed_by worker_id lease moment))
        (change_if-id test (claimed_by worker_id lease moment) (λ j. refl)) db.jobs d in
    elim (Bool-cases (nat_beq (length (filter test db.jobs)) 1)) [
      | inl one ↦ rw one kept
      | inr other ↦ rw other (claim_ids-DistinctJobs worker_id lease moment ids _ kept)
    ]
