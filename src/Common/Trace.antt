-- ===== src/Common/Trace.antt =====
-- Histories of events, the newest first.
use mathlib.Core.Path.{◌≡◌}
use mathlib.Core.Logic.{◌⊎◌}
use mathlib.Core.Bool.{Bool, false}
use mathlib.Core.List.{List, [], ◌∷◌}

-- Some entry of the history is a hit, and no later one is an end.
abbrev pub Since : {A : Type 0} → (A → Type 0) → (A → Bool) → List A → Type 0
Since Hit ends [] = ⊥
Since Hit ends (call ∷ past) = Hit call ⊎ ((ends call ≡ false) × Since Hit ends past)
