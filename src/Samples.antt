-- ===== src/Samples.antt =====
-- Concrete runs of the models: one invoice on its way through the pipeline, and the pages and windows
-- of the API.
mod World
mod Rules
mod Writes
mod Texts
mod Jobs
mod History
mod Schemas
mod Delivery
mod Runs
mod Pages
mod Amounts
mod Providers
mod Scores
