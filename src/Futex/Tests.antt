-- ===== src/Futex/Tests.antt =====
-- The theorems about futex.hpp at concrete inputs.
use snowy.Prelude.{ℕ, ◌+◌, ◌≡◌, refl, Bool, true, false, List, [], ◌∷◌}
use snowy.WaitQueue.{front, enqueue}
use snowy.Futex.{Futex, awaiter, wait, notify_all, notify_loop}
use snowy.Futex.Kept.{times}
use snowy.Futex.Wakeup.{
  Event, waiting, storing, notifying_all, start, step, run, Waits, all_interrupts, all_suspends,
  no_lost_wakeup,
}

abbrev running : ℕ → Bool
running owner = false

abbrev waited : Futex
waited = record {
  value = 5;
  waiters = record (awaiter 1 0 5 true) { canceled = true } ∷ awaiter 2 0 5 true ∷ [];
  sent = [];
}

abbrev race : List Event
race =
    waiting (awaiter 1 0 5 true) false false
    ∷ storing 6
    ∷ waiting (awaiter 2 1 5 true) false false
    ∷ waiting (awaiter 3 1 6 true) false false
    ∷ notifying_all
    ∷ waiting (awaiter 4 1 6 false) false false
    ∷ []

no_lost_wakeup_example :
    Waits running (run running (start 5) race).futex
    × ((k : ℕ)
        → times k (run running (start 5) race).futex.waiters
            + times k (run running (start 5) race).futex.sent
            + all_interrupts running k (start 5) race
          ≡ all_suspends running k (start 5) race)
unfolding run step notify_all notify_loop front wait enqueue
no_lost_wakeup_example = no_lost_wakeup running 5 race refl
