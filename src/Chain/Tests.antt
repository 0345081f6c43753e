-- ===== src/Chain/Tests.antt =====
-- Tests of the chains, and the theorems at concrete inputs.
use snowy.Prelude.{ℕ, ◌<◌, ◌≡◌, refl, ◌↔◌, true, false, List, [], ◌∷◌, get_or, count_true, arith}
use snowy.Fault.{ok, err, invalid_argument, count, failed}
use snowy.Registered.Ops.{Sqe, prepared, nop, fsync, close_direct}
use snowy.Chain.{
  soft, build, make_room, interrupted, submit, waiting, create, answered, retire, Watch, reserve,
}
use snowy.Chain.Links.{build-Chained, Chained}
use snowy.Chain.Collected.{
  Event, answer, retirement, run, step, launched, last_answer, run-launched,
}

abbrev entries : List Sqe
entries = prepared nop ∷ prepared fsync ∷ []

abbrev chain : List Sqe
chain = record (prepared nop) { io_link = true } ∷ prepared fsync ∷ []

soft_chain : build soft entries ≡ ok (chain, false)
unfolding build
soft_chain = refl

refused : build soft (prepared nop ∷ prepared (close_direct 3) ∷ []) ≡ err invalid_argument
unfolding build
refused = refl

-- An interrupted submission is tried again.
retried : make_room 2 1 ((failed interrupted, 1) ∷ (count 1, 8) ∷ []) ≡ ok true
unfolding make_room
retried = refl

abbrev quiet : Watch
quiet = record { watching = true; watch_waking = false; wakes = 0 }

published : submit true false soft entries 8 8 [] quiet ≡ ok (waiting chain (create 2) quiet)
unfolding submit build reserve make_room
published = refl

abbrev events : List Event
events = answer 1 (failed 125) ∷ retirement 1 ∷ answer 0 (count 7) ∷ retirement 0 ∷ []

both_retired : (run events (launched 2)).batch.results ≡ count 7 ∷ failed 125 ∷ []
unfolding run step create answered retire
both_retired = refl

build-Chained_example : Chained soft entries (build soft entries)
build-Chained_example = build-Chained soft entries

run-launched_example :
    (((run events (launched 2)).batch.done ≡ true)
      ↔ (count_true (run events (launched 2)).flying ≡ 0))
    × ((i : ℕ)
        → i < 2
        → get_or (run events (launched 2)).batch.results i (count 0)
          ≡ last_answer i events (count 0))
run-launched_example = run-launched 2 events (omega arith)
