-- ===== src/Workflows/Queue/Leases/Found.antt =====
-- A worker that looks for a job finds one if there is one that is due.
use evidence_flow.Prelude.{ℕ, ◌≢◌, List, [], nat_eq, list_eq, filter}
use evidence_flow.Repositories.Models.{Job}
use evidence_flow.Workflows.Queue.{is_claimable}

-- The statement of a claim meets a row with the identifier of the job.
abbrev IsMet : ℕ → List Job → Job → Type 0
IsMet moment rows j = filter (is_claimable j.id moment) rows ≢ []
