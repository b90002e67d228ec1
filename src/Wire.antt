-- ===== src/Wire.antt =====
-- The socket wire (src/wire).
pub mod Frame
pub mod SyncError
mod Runs
pub mod Reassembler
