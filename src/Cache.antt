-- ===== src/Cache.antt =====
-- src/cache: what the agent keeps of a card between operations.
pub mod CardRead
pub mod Credential
pub mod Snapshot
