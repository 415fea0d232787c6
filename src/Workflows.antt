-- ===== src/Workflows.antt =====
-- app/workflows: the job queue and the worker.
pub mod Queue
pub mod Worker
