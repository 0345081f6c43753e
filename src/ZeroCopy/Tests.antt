-- ===== src/ZeroCopy/Tests.antt =====
-- Tests of the sends without copies, and the theorem at a concrete input.
use snowy.Prelude.{◌≡◌, refl, true, false, not, ◌||◌, List, [], ◌∷◌, some}
use snowy.Fault.{ok, err, invalid_argument, logic_error, count}
use snowy.ZeroCopy.{create, tx, result, start, pending, join, await_resume}
use snowy.ZeroCopy.Reported.{
  Event, completion, retirement, run, step, any, is_success, is_primary, is_retirement, launched,
  launched_reports,
}

too_long : tx 3 (record { base = some 1; len = 2147483648 }) ≡ err invalid_argument
unfolding tx
too_long = refl

started_twice : (start true pending launched).0 ≡ err logic_error
unfolding start create
started_twice = refl

-- The bytes are reported before the buffer is free.
abbrev first : List Event
first = completion (count 100) false ∷ []

bytes_first : await_resume (run first launched) ≡ ok 100
unfolding run step start create result await_resume
bytes_first = refl

still_held : join (run first launched) ≡ ok false
unfolding run step start create result join
still_held = refl

abbrev all_events : List Event
all_events = completion (count 100) false ∷ completion (count 0) true ∷ retirement ∷ []

launched_reports_example :
    ((run all_events launched).sent ≡ any is_success all_events || any is_retirement all_events)
    × (join (run all_events launched) ≡ ok (any is_retirement all_events))
    × ((run all_events launched).busy ≡ not (any is_primary all_events))
launched_reports_example = launched_reports all_events
