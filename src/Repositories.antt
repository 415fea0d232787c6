-- ===== src/Repositories.antt =====
-- app/repositories: the tables and the queries.
pub mod Models
pub mod Documents
pub mod Session
pub mod Backing
pub mod History
