-- ===== src/Operations.antt =====
-- The scheduling side of the agent (src/operations).
pub mod PromptSerializer
pub mod CardSession
pub mod RateLimiter
pub mod Operation
pub mod Tracking
pub mod Manager
