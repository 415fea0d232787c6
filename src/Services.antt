-- ===== src/Services.antt =====
-- app/services: the steps of the pipeline over one session. A function takes the document that its
-- caller loaded, and writes to the document's row.
pub mod Validation
pub mod Approval
pub mod CrmWrite
pub mod Extraction
