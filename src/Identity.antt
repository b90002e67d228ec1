-- ===== src/Identity.antt =====
-- include/LibreSCRS/Agent/Identity.h and ObjectId: the names that callers and objects go by.
use libre_agent.Common.{ℕ, String, Bool, not, ◌==◌}

-- A caller's bus name.
abbrev pub CallerToken : Type 0
CallerToken = String

abbrev pub ObjectId : Type 0
ObjectId = ℕ

-- The default id, 0, names no object.
abbrev pub valid : ObjectId → Bool
valid i = not (i == 0)
