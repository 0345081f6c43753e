-- ===== src/ReadyQueue/Tests.antt =====
-- The queue of intrusive_queue.hpp at concrete inputs.
use snowy.Prelude.{◌≡◌, refl, none, some, [], ◌∷◌, arith}
use snowy.ReadyQueue.{Links, ReadyQueue, update, create, push, pop}
use snowy.ReadyQueue.Shape.{IsQueue}
use snowy.ReadyQueue.Fifo.{other_undisturbed}

abbrev no_links : Links
no_links n = none

-- Node 4 before node 6, and node 7 in a queue of its own.
abbrev linked : Links
linked = update no_links 4 (some 6)

abbrev pair : ReadyQueue
pair = record { head = some 4; tail = some 6 }

abbrev alone : ReadyQueue
alone = record { head = some 7; tail = some 7 }

pair-IsQueue : IsQueue linked pair (4 ∷ 6 ∷ [])
unfolding update
pair-IsQueue = record {
  chain = (refl, (refl, refl));
  ends = refl;
  distinct = ((omega arith, tt), (tt, tt));
}

alone-IsQueue : IsQueue linked alone (7 ∷ [])
unfolding update
alone-IsQueue = record { chain = (refl, refl); ends = refl; distinct = (tt, tt) }

other_undisturbed_example :
    IsQueue (push linked pair 9).0 alone (7 ∷ []) × IsQueue (pop linked pair).1 alone (7 ∷ [])
other_undisturbed_example =
    other_undisturbed linked pair alone (4 ∷ 6 ∷ []) (7 ∷ []) 9 pair-IsQueue alone-IsQueue
      ((omega arith, (omega arith, tt)), tt)

-- A node that has been popped can be pushed again.
recycled : (pop (push no_links create 3).0 (push no_links create 3).1).0 ≡ some 3
unfolding push pop update
recycled = refl
