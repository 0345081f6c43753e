-- ===== src/File/Handles/Tests.antt =====
-- Tests and examples for File.Handles: a file is opened, read, moved once it is idle, and destroyed.
use snowy.Prelude.{ℕ, ◌≡◌, refl, Bool, true, false, Option, none, some, List, [], ◌∷◌}
use snowy.Fault.{ok, count, invalid_argument, system_error}
use snowy.File.Handles.{
  read, read_write, create, is_invalid_path, move_from, destroy, threw, pending, transfer, flush,
  start,
}
use snowy.File.Handles.Lifetime.{World, Step, make, move, drop, land, begin, run, idle}
use snowy.File.Handles.Safe.{IsKept, run-IsKept}

abbrev opens : ℕ → Step
opens fd = make true (47 ∷ 102 ∷ []) read_write false (λ flags. count fd) none true (ok tt)

-- The descriptor of a directory is closed again, a busy file is not moved, and the moved file is destroyed.
abbrev steps : List Step
steps =
    make true (47 ∷ []) read false (λ flags. count 3) none false (ok tt)
    ∷ opens 3
    ∷ opens 4
    ∷ begin true pending 0
    ∷ move true 0
    ∷ land 0
    ∷ move true 0
    ∷ begin true pending 1
    ∷ drop 2
    ∷ []

abbrev opened_at : ℕ → Option World → Bool
opened_at fd none = false
opened_at fd (some w) = w.files.is_open fd

closes : opened_at 3 (run steps (some idle)) ≡ false
unfolding run create move_from destroy start
closes = refl

keeps : opened_at 4 (run steps (some idle)) ≡ true
unfolding run
keeps = refl

ends : run (opens 3 ∷ begin true pending 0 ∷ drop 0 ∷ []) (some idle) ≡ none
unfolding run
ends = refl

refuses : is_invalid_path (47 ∷ 0 ∷ []) ≡ true
unfolding is_invalid_path
refuses = refl

overflows : transfer false 1 9223372036854775807 ≡ threw invalid_argument
unfolding transfer
overflows = refl

cancels : flush true ≡ threw (system_error 125)
unfolding flush
cancels = refl

run-IsKept_example : IsKept (run steps (some idle))
run-IsKept_example = run-IsKept steps
