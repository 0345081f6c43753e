-- ===== src/Spawn/Tests.antt =====
-- The join handle of spawn.hpp at a concrete input.
use snowy.Prelude.{ℕ, ◌≡◌, refl, Bool, true, false, none, some, List, [], ◌∷◌}
use snowy.When.{Outcome, value}
use snowy.Spawn.{returned, create, take, store, complete, announce, publish, join}
use snowy.Fault.{err, invalid_argument}
use snowy.Spawn.Wait
use snowy.Spawn.Wait.{keep_result, finish, sync_wait}
use snowy.Spawn.Handles.{spawn}
use snowy.Spawn.Handles.Consumed
use snowy.Spawn.Handles.Consumed.{
  spawns, moves, joins, gets, awaits, idle, IsOnce, idle-IsOnce, run-IsOnce,
}
use snowy.Spawn.Join.{Step, publishes, joins, step, run, Sees, run-Sees}

abbrev never : ℕ → Bool
never owner = false

abbrev seven : Outcome ℕ
seven = value 7

-- A handle joins before the task has ended.
abbrev steps : List Step
steps = publishes ∷ joins 1 0 ∷ publishes ∷ publishes ∷ []

takes_seven : take (run never seven create steps) ≡ returned 7
unfolding run step publish join store complete announce take create
takes_seven = refl

run-Sees_example : Sees never seven (run never seven create steps)
run-Sees_example = run-Sees never seven steps

-- One handle is moved, and the result is consumed through the new one only.
abbrev program : List Consumed.Step
program = spawns true true ∷ moves 0 ∷ joins 0 ∷ gets true 1 ∷ awaits true 1 ∷ gets false 1 ∷ []

consumes_once : (Consumed.run program idle).consumed ≡ 0 ∷ []
unfolding Consumed.run
consumes_once = refl

rejects_empty : spawn true false idle.handles ≡ err invalid_argument
unfolding spawn
rejects_empty = refl

blocks : sync_wait (keep_result seven Wait.create) ≡ none
unfolding sync_wait keep_result Wait.create
blocks = refl

gives_seven : sync_wait (finish (keep_result seven Wait.create)) ≡ some (returned 7)
unfolding sync_wait keep_result finish Wait.create
gives_seven = refl

run-IsOnce_example : IsOnce (Consumed.run program idle)
run-IsOnce_example = run-IsOnce program idle idle-IsOnce
