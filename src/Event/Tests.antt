-- ===== src/Event/Tests.antt =====
-- The event of event.hpp at concrete inputs.
use snowy.Prelude.{◌≡◌, refl, true, false, List, [], ◌∷◌, map}
use snowy.Event.{Awaiter, Event, create, set, reset, suspend, notify_each, sweep}
use snowy.Event.Steps.{Op, setting, waiting, sweeping, step, run}

-- Two waiters park, one is canceled and swept, and a third comes to the set event.
abbrev calls : List Op
calls =
    waiting 1 true false
    ∷ waiting 2 false false
    ∷ sweeping true
    ∷ setting
    ∷ waiting 3 true false
    ∷ []

abbrev parked : Event
parked = run create (waiting 1 true false ∷ waiting 2 false false ∷ [])

ids_ready : map (λ (w : Awaiter). w.id) (run create calls).ready ≡ 1 ∷ 2 ∷ 3 ∷ []
unfolding run step suspend set reset notify_each sweep create
ids_ready = refl
