-- ===== src/Workflows/Queue/Leases/Held.antt =====
-- A claimed job through the claims and the reclaims of others, until its lease runs out.
use evidence_flow.Prelude.{
  ℕ, ◌+◌, ◌<◌, ◌≡◌, ◌≢◌, refl, sym, ap, ◌∙◌, Bool, true, false, Option, none, some, List, [], ◌∷◌,
  Text, arith, ◌==◌, ==_iff, nat_eq, list_eq, find, filter, length, map, nat_beq, Bool-cases, inl,
  inr, some_injective,
}
use evidence_flow.Repositories.Models.{Job, Env, Db}
use evidence_flow.Repositories.Documents.{tick}
use evidence_flow.Workflows.Queue.{
  is_free, lapsed, is_claimable, claimed_by, claim_update, claim_ids, claimable_ids, claim, get_job,
  is_abandoned, reclaimed, reclaim_expired,
}
use evidence_flow.Workflows.Queue.Leases.{
  DistinctJobs, change_if, change_if-id, Distinct-map, claim_ids-IsClaimed, claim_ids-DistinctJobs,
}

-- A worker looks for a job, or takes back the jobs whose leases have run out.
pub data Turn : Type 0 where
  claims : Text → ℕ → Turn
  reclaims : Turn

abbrev pub take_turn : Env → Turn → Db → Option Job × Db
take_turn env (claims worker_id lease) db = claim env worker_id lease db
take_turn env reclaims db = (none, (reclaim_expired env db).1)

-- Each turn is taken before a moment.
abbrev pub AreBefore : Env → ℕ → List Turn → Db → Type 0
AreBefore env bound [] db = Unit {0}
AreBefore env bound (turn ∷ turns) db =
    (env.clock db.draws < bound) × AreBefore env bound turns (take_turn env turn db).1

abbrev pub IsOther : Job → Option Job → Type 0
IsOther job none = Unit {0}
IsOther job (some taken) = taken.id ≢ job.id

-- No turn takes the job, and its row is the same after each.
abbrev pub IsHeld : Env → Job → List Turn → Db → Type 0
IsHeld env job [] db = get_job job.id db ≡ some job
IsHeld env job (turn ∷ turns) db =
    (get_job job.id db ≡ some job)
    × (IsOther job (take_turn env turn db).0 × IsHeld env job turns (take_turn env turn db).1)

find-change :
    (test : Job → Bool) (change : Job → Job) (job : Job) (rows : List Job)
    → ((j : Job) → (change j).id ≡ j.id)
    → test job ≡ false
    → find (λ j. j.id == job.id) rows ≡ some job
    → find (λ j. j.id == job.id) (map (change_if test change) rows) ≡ some job
find-change test change job [] same skip h = absurd (cc)
find-change test change job (r ∷ rows) same skip h = elim (Bool-cases (r.id == job.id)) [
  | inl hit ↦
      let is_job : r ≡ job = some_injective (rw hit at h) in
      rw is_job
        (rw skip (let g : (job.id == job.id) ≡ true = (==_iff job.id job.id).1 refl in rw g refl))
  | inr miss ↦
      let kept : (change_if test change r).id ≡ r.id = change_if-id test change same r in
      rw kept (rw miss (find-change test change job rows same skip (rw miss at h)))
]

-- A running lease.
abbrev Runs : ℕ → Job → Type 0
Runs moment job = is_free moment job.lease_expires_at ≡ false

module _ (worker_id : Text) (lease moment : ℕ) (job : Job) (runs : Runs moment job) where
  claim_update-keeps :
      (k : Text) (db : Db)
      → get_job job.id db ≡ some job
      → get_job job.id (claim_update worker_id lease moment k db) ≡ some job
  unfolding claim_update get_job
  claim_update-keeps k db h =
      find-change (is_claimable k moment) (claimed_by worker_id lease moment) job db.jobs
        (λ j. refl) (ground arith) h

  claim_ids-keeps :
      (ids : List Text) (db : Db)
      → get_job job.id db ≡ some job
      → get_job job.id (claim_ids worker_id lease moment ids db).1 ≡ some job
  unfolding claim_ids
  claim_ids-keeps [] db h = h
  claim_ids-keeps (k ∷ ids) db h =
      let kept = claim_update-keeps k db h in
      elim (Bool-cases (nat_beq (length (filter (is_claimable k moment) db.jobs)) 1)) [
        | inl one ↦ rw one kept
        | inr other ↦ rw other (claim_ids-keeps ids _ kept)
      ]

  claim_ids-IsOther :
      (ids : List Text) (db : Db) (taken : Option Job)
      → DistinctJobs db
      → get_job job.id db ≡ some job
      → (claim_ids worker_id lease moment ids db).0 ≡ taken
      → IsOther job taken
  claim_ids-IsOther ids db none d h e = tt
  claim_ids-IsOther ids db (some taken) d h e =
      let c = claim_ids-IsClaimed worker_id lease moment ids db taken d e in
      λ same.
        let is_job : c.before ≡ job =
          some_injective (sym c.stored ∙ ap (λ i. get_job i db) same ∙ h) in
        let free : is_free moment job.lease_expires_at ≡ true =
          ap (λ (j : Job). is_free moment j.lease_expires_at) (sym is_job) ∙ c.was_free in
        absurd (cc)

not_lapsed :
    (moment : ℕ) (lease : Option ℕ) → is_free moment lease ≡ false → lapsed moment lease ≡ false
not_lapsed moment none h = refl
not_lapsed moment (some expiry) h = h

reclaim_expired-keeps :
    (env : Env) (job : Job) (db : Db)
    → Runs (env.clock db.draws) job
    → get_job job.id db ≡ some job
    → get_job job.id (reclaim_expired env db).1 ≡ some job
unfolding reclaim_expired get_job
reclaim_expired-keeps env job db runs h =
    find-change (is_abandoned (env.clock db.draws)) (reclaimed (env.clock db.draws)) job db.jobs
      (λ j. refl) (ground (arith, not_lapsed (env.clock db.draws) job.lease_expires_at runs)) h

reclaim_expired-DistinctJobs :
    (env : Env) (db : Db) → DistinctJobs db → DistinctJobs (reclaim_expired env db).1
unfolding reclaim_expired
reclaim_expired-DistinctJobs env db d =
    let moment = env.clock db.draws in
    Distinct-map (change_if (is_abandoned moment) (reclaimed moment))
      (change_if-id (is_abandoned moment) (reclaimed moment) (λ j. refl)) db.jobs d

turns-IsHeld :
    (env : Env) (job : Job) (bound : ℕ) (turns : List Turn) (db : Db)
    → job.lease_expires_at ≡ some bound
    → DistinctJobs db
    → get_job job.id db ≡ some job
    → AreBefore env bound turns db
    → IsHeld env job turns db
unfolding claim
turns-IsHeld env job bound [] db l d h early = h
turns-IsHeld env job bound (claims worker_id lease ∷ turns) db l d h early =
    let moment = env.clock db.draws in
    let runs : Runs moment job = rw l (let e = early.0 in ground arith) in
    let ids = claimable_ids moment db in
    (
      h,
      (
        claim_ids-IsOther worker_id lease moment job runs ids (tick db) _ d h refl,
        turns-IsHeld env job bound turns _ l
            (claim_ids-DistinctJobs worker_id lease moment ids (tick db) d)
            (claim_ids-keeps worker_id lease moment job runs ids (tick db) h) early.1,
      ),
    )
turns-IsHeld env job bound (reclaims ∷ turns) db l d h early =
    let runs : Runs (env.clock db.draws) job = rw l (let e = early.0 in ground arith) in
    (
      h,
      (
        tt,
        turns-IsHeld env job bound turns _ l (reclaim_expired-DistinctJobs env db d)
            (reclaim_expired-keeps env job db runs h) early.1,
      ),
    )

-- In a table with distinct identifiers: after a claim that took a job, through any claims and reclaims
-- of any workers, in any order, each before the lease of the job ends, none of them takes that job, and
-- its row stays as the claim left it.
pub claim-IsHeld :
    (env : Env) (worker_id : Text) (lease : ℕ) (turns : List Turn) (db : Db) (job : Job)
    → DistinctJobs db
    → (claim env worker_id lease db).0 ≡ some job
    → AreBefore env (env.clock db.draws + lease) turns (claim env worker_id lease db).1
    → IsHeld env job turns (claim env worker_id lease db).1
unfolding claim
claim-IsHeld env worker_id lease turns db job d h early =
    let moment = env.clock db.draws in
    let ids = claimable_ids moment db in
    let c = claim_ids-IsClaimed worker_id lease moment ids (tick db) job d h in
    turns-IsHeld env job (moment + lease) turns _ (ap (λ (j : Job). j.lease_expires_at) c.claimed)
      (claim_ids-DistinctJobs worker_id lease moment ids (tick db) d) c.row early
