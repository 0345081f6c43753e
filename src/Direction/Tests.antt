-- ===== src/Direction/Tests.antt =====
-- The directions of a socket at concrete inputs.
use snowy.Prelude.{◌≡◌, refl, true, List, [], ◌∷◌}
use snowy.Direction.{create, await_suspend, may_move}
use snowy.Direction.Exclusive.{Event, suspends, completes, ends, step, run, IsUsed, run-IsUsed}

-- A second read is refused while the first is pending.
abbrev reads : List Event
reads = suspends 1 true true ∷ suspends 2 true true ∷ []

abbrev writes : List Event
writes = suspends 3 true true ∷ completes 3 ∷ ends 3 ∷ []

one_pending : (run create reads).linked ≡ 1 ∷ []
unfolding run step await_suspend create
one_pending = refl

run-IsUsed_example :
    IsUsed (run create reads)
    × IsUsed (run create writes)
    × (may_move (run create reads) (run create writes) ≡ true
        → ((run create reads).linked ≡ []) × ((run create writes).linked ≡ []))
run-IsUsed_example = run-IsUsed reads writes
