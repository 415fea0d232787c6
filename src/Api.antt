-- ===== src/Api.antt =====
-- app/api: the web layer.
pub mod Highlight
pub mod Limits
pub mod Schemas
pub mod Errors
pub mod Routes
pub mod Review
