-- ===== src/Workflows/Queue/Retries.antt =====
-- A job that keeps failing is given up.
use evidence_flow.Prelude.{
  ℕ, ◌+◌, ◌≤◌, ◌<◌, ◌≡◌, refl, ap, ◌∙◌, ◌⊎◌, true, false, List, [], ◌∷◌, Text, arith, length, leb,
  Bool-cases, inl, inr, if◌then◌else◌,
}
use evidence_flow.Domain.Failures.{Error, is_transient}
use evidence_flow.Repositories.Models.{Job, JobStatus}
use evidence_flow.Workflows.Queue.{is_open, claimed_by, failed_job, route_failure}

-- A worker claims the job again and again, and each time the job fails, at the moment and with the
-- error listed, until it is no longer open.
pub rounds : Text → ℕ → List (ℕ × Error) → Job → Job
unfolding route_failure
rounds worker_id lease [] j = j
rounds worker_id lease ((moment, error) ∷ es) j =
    let rest =
      rounds worker_id lease es (failed_job moment error (claimed_by worker_id lease moment j)) in
    if is_open j.status then rest else j

rounds_closed :
    (worker_id : Text) (lease : ℕ) (es : List (ℕ × Error)) (j : Job)
    → is_open j.status ≡ false
    → rounds worker_id lease es j ≡ j
unfolding rounds
rounds_closed worker_id lease [] j h = refl
rounds_closed worker_id lease ((moment, error) ∷ es) j h = rw h refl

-- What a failed attempt makes of a job.
abbrev attempt_of : Text → ℕ → ℕ → Error → Job → Job
attempt_of worker_id lease moment error j =
    failed_job moment error (claimed_by worker_id lease moment j)

-- It waits for another attempt, of those that it has left.
record Waits (j after : Job) : Type 0 where
  pending : after.status ≡ JobStatus.pending
  counted : after.attempts ≡ j.attempts + 1
  limit : after.max_attempts ≡ j.max_attempts
  left : j.attempts + 1 < j.max_attempts

attempt_cases :
    (worker_id : Text) (lease moment : ℕ) (error : Error) (j : Job)
    → ((attempt_of worker_id lease moment error j).status ≡ JobStatus.failed)
      ⊎ Waits j (attempt_of worker_id lease moment error j)
unfolding route_failure
attempt_cases worker_id lease moment error j = elim (Bool-cases (is_transient error)) [
  | inr lasting ↦ inl (rw lasting refl)
  | inl passing ↦ elim (Bool-cases (leb j.max_attempts (j.attempts + 1))) [
    | inl spent ↦ inl (rw passing (rw spent refl))
    | inr open_still ↦ inr (
        rw passing (
          rw open_still
            (record { pending = refl; counted = refl; limit = refl; left = ground arith })))
  ]
]

-- An open job that fails as often as it has attempts left, and once at least, ends as failed.
pub rounds_end :
    (worker_id : Text) (lease : ℕ) (es : List (ℕ × Error)) (j : Job)
    → is_open j.status ≡ true
    → 0 < length es
    → j.max_attempts ≤ j.attempts + length es
    → (rounds worker_id lease es j).status ≡ JobStatus.failed
unfolding rounds
rounds_end worker_id lease [] j o nonempty h = absurd (omega arith)
rounds_end worker_id lease ((moment, error) ∷ es) j o nonempty h =
    elim (attempt_cases worker_id lease moment error j) [
      | inl gone ↦
          rw o (
            ap (λ (k : Job). k.status) (rounds_closed worker_id lease es _ (ap is_open gone))
            ∙ gone)
      | inr w ↦ rw o (
          rounds_end worker_id lease es _ (ap is_open w.pending) (omega (arith, w.left))
            (omega (arith, w.counted, w.limit)))
    ]
