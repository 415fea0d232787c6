-- ===== src/Evals.antt =====
-- evals: the replay of the evaluation set, its scores and its costs. The labels are in Labels.antt.
pub mod Cost
pub mod Rows
pub mod Scores
pub mod Percentiles
pub mod Agreement
pub mod Replay
pub mod Summary
