-- ===== src/Providers.antt =====
-- app/providers: the destination and the extraction providers.
pub mod Crm
pub mod Mock
pub mod OpenAi
pub mod Fake
