-- ===== src/Event/Wake.antt =====
-- Whom the event of event.hpp wakes, and that nobody sleeps on an event that is set.
use snowy.Prelude.{
  ℕ, ◌+◌, ◌≡◌, refl, sym, Bool, true, false, List, [], ◌∷◌, ◌++◌, map, keep, All, arith, append-nil,
  append_assoc,
}
use snowy.Event.{Awaiter, Event, create, retired, notify_each, set}
use snowy.Event.Kept.{parked, times_queued, all_suspends, all_drops}
use snowy.Event.Steps.{Op}

abbrev pub is_active : Awaiter → Bool
is_active w = w.active

notify_each_lem :
    (ws ready : List Awaiter) → notify_each ws ready ≡ ready ++ map retired (keep is_active ws)
unfolding notify_each
notify_each_lem [] ready = sym (append-nil ready)
notify_each_lem (w ∷ ws) ready = ground (
  arith,
  notify_each_lem ws (ready ++ (retired w ∷ [])),
  notify_each_lem ws ready,
  append_assoc ready (retired w ∷ []) (map retired (keep is_active ws)),
)

abbrev pub Asleep : List Awaiter → Type 0
Asleep ws = All (λ (w : Awaiter). w.active ≡ false) ws

all_retired : (ws : List Awaiter) → Asleep (map retired ws)
all_retired [] = tt
all_retired (w ∷ ws) = (refl, all_retired ws)

again : (ws : List Awaiter) → Asleep ws → (ready : List Awaiter) → notify_each ws ready ≡ ready
unfolding notify_each
again [] h ready = refl
again (w ∷ ws) h ready = ground (arith, h.0, again ws h.1 ready)

-- `set` queues every parked waiter once, the newest first, with the error that it had, and leaves
-- none parked; waiters stay linked, and those that have been retired before are not queued again.
pub set_wakes :
    (e : Event)
    → ((set e).is_set ≡ true)
      × ((set e).ready ≡ e.ready ++ map retired (keep is_active e.waiters))
      × ((set e).waiters ≡ map retired e.waiters)
      × Asleep (set e).waiters
      × ((set (set e)).ready ≡ (set e).ready)
unfolding set
set_wakes e = (
  refl,
  notify_each_lem e.waiters e.ready,
  refl,
  all_retired e.waiters,
  again (map retired e.waiters) (all_retired e.waiters) (notify_each e.waiters e.ready),
)

-- While the event is set, nobody is parked.
abbrev pub IsQuiet : Event → Type 0
IsQuiet e = e.is_set ≡ true → Asleep e.waiters

-- What is known after some calls on a new event: nobody is parked while it is set, and each suspension of
-- a waiter is parked, was queued, or ended with its destruction.
abbrev pub Served : List Op → Event → Type 0
Served os e =
    (e.is_set ≡ true → (k : ℕ) → parked k e.waiters ≡ 0)
    × ((k : ℕ)
        → parked k e.waiters + times_queued k e.ready + all_drops k create os
          ≡ all_suspends k create os)
