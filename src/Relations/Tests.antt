-- ===== src/Relations/Tests.antt =====
-- Runs of the theorems on internal/verb/relations.go at a chain of two links.
use selftracked.Common.{◌≡◌, ◌↔◌, ◌+◌, List, [], ◌∷◌, true, some, length}
use selftracked.Store.{Link, rel_depends}
use selftracked.Relations.{walk, would_cycle}
use selftracked.Relations.Walk.{Reaches}
use selftracked.Relations.Cycles.{walk-would_cycle, would_cycle-Reaches}

abbrev chain : List Link
chain =
    record { from_task = 2; to_task = 3; type = rel_depends; note = [] }
    ∷ record { from_task = 3; to_task = 1; type = rel_depends; note = [] }
    ∷ []

walk-would_cycle_example :
    walk (length chain + 2) chain rel_depends 1 [] (2 ∷ [])
    ≡ some (would_cycle chain rel_depends 1 2)
walk-would_cycle_example = walk-would_cycle chain rel_depends 1 2

would_cycle-Reaches_example :
    (would_cycle chain rel_depends 1 2 ≡ true) ↔ Reaches chain rel_depends 2 1
would_cycle-Reaches_example = would_cycle-Reaches chain rel_depends 1 2
