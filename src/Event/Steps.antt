-- ===== src/Event/Steps.antt =====
-- Runs of the event of event.hpp.
use snowy.Prelude.{ℕ, Bool, List, [], ◌∷◌}
use snowy.Event.{Event, fresh, set, reset, suspend, destroy, request_cancel, sweep}

pub data Op : Type 0 where
  setting resetting : Op
  -- A waiter, whether it honors a stop, and whether one has been requested.
  waiting : ℕ → Bool → Bool → Op
  destroying canceling : ℕ → Op
  sweeping : Bool → Op

unfoldable pub step : Event → Op → Event
step e setting = set e
step e resetting = reset e
step e (waiting id cancelable stopping) = (suspend e (fresh id cancelable) stopping).2
step e (destroying id) = destroy e id
step e (canceling id) = request_cancel e id
step e (sweeping all) = sweep e all

unfoldable pub run : Event → List Op → Event
run e [] = e
run e (o ∷ os) = run (step e o) os
