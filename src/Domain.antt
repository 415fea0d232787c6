-- ===== src/Domain.antt =====
-- app/domain: the rules of the program that touch no database.
pub mod Events
pub mod Decimal
pub mod Schema
pub mod Validation
pub mod Failures
pub mod Approval
pub mod Evidence
