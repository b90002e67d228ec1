-- ===== src/Wire/Runs.antt =====
-- The names of the errors at concrete texts.
use libre_agent.Common.{◌≡◌, ◌≢◌, refl}
use libre_agent.Wire.SyncError.{communication_error, decode_sync_error}

rate_limited_read : decode_sync_error "RateLimited" ≢ communication_error
unfolding decode_sync_error
rate_limited_read e = cc

unknown_read : decode_sync_error "Unknown" ≡ communication_error
unfolding decode_sync_error
unknown_read = refl
