-- ===== src/Pool/Tests.antt =====
-- The pool of pool.hpp and pool.cpp at concrete inputs.
use snowy.Prelude.{ℕ, ◌+◌, ◌≡◌, refl, true, false, List, [], ◌∷◌, arith}
use snowy.When.{Outcome, value}
use snowy.Pool.{fresh, enqueue, close, notify_one, notify_all, look, finish}
use snowy.Pool.Steps.{
  Event, queued, notified, closed, announced, looked, finished, step, run, start,
}
use snowy.Pool.Drain.{Serves, run-Serves}

-- Two workers: both sleep, two jobs come, the pool is closed, both jobs are done, both workers end.
abbrev day : List Event
day =
    looked
    ∷ looked
    ∷ queued 5
    ∷ notified
    ∷ queued 6
    ∷ looked
    ∷ notified
    ∷ looked
    ∷ closed
    ∷ announced
    ∷ finished
    ∷ looked
    ∷ finished
    ∷ looked
    ∷ []

day_taken : (run (start (fresh 2)) day).taken ≡ 5 ∷ 6 ∷ []
unfolding run step enqueue close notify_one notify_all look finish
day_taken = refl

closes : (run (start (fresh 2)) day).pool.stopping ≡ true
unfolding run step enqueue close notify_one notify_all look finish
closes = refl

announces : (run (start (fresh 2)) day).owes_all ≡ false
unfolding run step enqueue close notify_one notify_all look finish
announces = refl

rests : (run (start (fresh 2)) day).pool.polling + (run (start (fresh 2)) day).pool.busy ≡ 0
unfolding run step enqueue close notify_one notify_all look finish
rests = refl

run-Serves_example : Serves (run (start (fresh 2)) day)
run-Serves_example = run-Serves 2 day (omega arith)

abbrev nine : Outcome ℕ
nine = value 9
