-- ===== src/Base/Faults.antt =====
-- The script of outcomes for the coming calls of a client: whether each fails. None does beyond the
-- end of the script.
use mathlib.Core.Bool.{Bool, false}
use mathlib.Core.List.{List, [], ◌∷◌}

abbrev pub next_fails : List Bool → Bool
next_fails [] = false
next_fails (b ∷ bs) = b

abbrev pub later : List Bool → List Bool
later [] = []
later (b ∷ bs) = bs
