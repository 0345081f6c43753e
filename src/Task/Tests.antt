-- ===== src/Task/Tests.antt =====
-- Tests of the tasks, and the theorem at a concrete input.
use snowy.Prelude.{ℕ, ◌≡◌, refl, subst, true, false, Option, none, some, List, [], ◌∷◌}
use snowy.Task.{
  Promise, Frame, Heap, alive_at, promise_at, take_result, create, destroy, move_from, assign,
  await_suspend, await_resume, await_ready, set_continuation, return_value,
}
use snowy.Task.Awaited.{Awaits, IsRunning, value, await_answers}
use snowy.Task.Handles.{Step, make, await, move_into, suspend, finish, resume, drop, Safe}
use snowy.Task.Owned.{step, run, run-Safe}

-- A task is created and assigned over, and the other is awaited and ends.
abbrev steps : List (Step ℕ)
steps =
    make
    ∷ make
    ∷ move_into 0 1
    ∷ await 0
    ∷ suspend 2 7
    ∷ finish 1 42
    ∷ resume 2
    ∷ drop 2
    ∷ drop 0
    ∷ []

abbrev gone : Promise ℕ → Frame ℕ
gone p = record { alive = false; promise = p }

all_destroyed :
    run steps (record { frames = []; holders = [] })
    ≡ some (record {
      frames =
          gone (record { continuation = none; exception = none; value = none })
          ∷ gone (record { continuation = some 7; exception = none; value = none })
          ∷ [];
      holders = none ∷ none ∷ none ∷ [];
    })
unfolding run step create destroy move_from assign await_suspend await_resume await_ready
    set_continuation return_value take_result
all_destroyed = refl

run-Safe_example : Safe (run steps (record { frames = []; holders = [] }))
run-Safe_example = run-Safe steps

-- Object 0 is a task of frame 0, and object 1 is empty.
abbrev one_task : Heap ℕ
one_task = record {
  frames =
      record {
        alive = true;
        promise = record { continuation = none; exception = none; value = none };
      }
      ∷ [];
  holders = some 0 ∷ none ∷ [];
}

await_answers_example : Awaits one_task 0 7 (value 42) (some 0)
await_answers_example = await_answers one_task 0 7 (value 42) (some 0) refl (λ k e.
    subst (λ j. (alive_at one_task.frames j ≡ true) × IsRunning (promise_at one_task.frames j))
      (some_inj 0 k e) (refl, refl))
  where
    some_inj : (a b : ℕ) → ◌≡◌ {A = Option ℕ} (some a) (some b) → a ≡ b
    some_inj a b e = cc
