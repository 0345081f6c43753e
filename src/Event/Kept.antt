-- ===== src/Event/Kept.antt =====
-- Where the waiters of event.hpp are: each one that was suspended is parked, queued or destroyed.
use snowy.Prelude.{
  ℕ, ◌+◌, ◌≡◌, refl, Bool, true, ◌&&◌, List, [], ◌∷◌, ◌++◌, map, ◌==◌, if◌then◌else◌, if_cases,
  arith,
}
use snowy.Event.{
  Awaiter, Event, fresh, retired, queued, notify_each, set, reset, suspend, unlink, destroy, mark,
  request_cancel, is_swept, sweep_waiter, swept, sweep,
}
use snowy.Event.Steps.{Op, setting, resetting, waiting, destroying, canceling, sweeping, step, run}

abbrev pub hit : ℕ → Awaiter → ℕ
hit k w = if w.id == k then 1 else 0

abbrev pub active_hit : ℕ → Awaiter → ℕ
active_hit k w = if w.active then hit k w else 0

-- How many of a waiter's suspensions are still parked, and how many have been queued to go on.
abbrev pub parked : ℕ → List Awaiter → ℕ
parked k [] = 0
parked k (w ∷ ws) = active_hit k w + parked k ws

abbrev pub times_queued : ℕ → List Awaiter → ℕ
times_queued k [] = 0
times_queued k (w ∷ ws) = hit k w + times_queued k ws

-- The first awaiter with a number, as its destructor finds it.
abbrev pub destroys : ℕ → ℕ → List Awaiter → ℕ
destroys k id [] = 0
destroys k id (w ∷ ws) = let rest = destroys k id ws in if w.id == id then active_hit k w else rest

-- The suspensions of a waiter, and those that end with its destruction while it is parked.
abbrev pub suspends : ℕ → Event → Op → ℕ
suspends k e (waiting id cancelable stopping) =
    if (suspend e (fresh id cancelable) stopping).0 then (if id == k then 1 else 0) else 0
suspends k e _ = 0

abbrev pub drops : ℕ → Event → Op → ℕ
drops k e (destroying id) = destroys k id e.waiters
drops k e _ = 0

unfoldable pub all_suspends : ℕ → Event → List Op → ℕ
unfolding suspend
all_suspends k e [] = 0
all_suspends k e (o ∷ os) = suspends k e o + all_suspends k (step e o) os

unfoldable pub all_drops : ℕ → Event → List Op → ℕ
all_drops k e [] = 0
all_drops k e (o ∷ os) = drops k e o + all_drops k (step e o) os

queued-append :
    (k : ℕ) (xs ys : List Awaiter)
    → times_queued k (xs ++ ys) ≡ times_queued k xs + times_queued k ys
queued-append k [] ys = omega arith
queued-append k (x ∷ xs) ys = omega (arith, queued-append k xs ys)

parked-retired : (k : ℕ) (ws : List Awaiter) → parked k (map retired ws) ≡ 0
parked-retired k [] = refl
parked-retired k (w ∷ ws) = omega (arith, parked-retired k ws)

queued-queued :
    (k : ℕ) (w : Awaiter) (ready : List Awaiter)
    → times_queued k (queued w ready) ≡ times_queued k ready + active_hit k w
queued-queued k w ready = ground (arith, queued-append k ready (retired w ∷ []))

queued-notify_each :
    (k : ℕ) (ws ready : List Awaiter)
    → times_queued k (notify_each ws ready) ≡ times_queued k ready + parked k ws
unfolding notify_each
queued-notify_each k [] ready = omega arith
queued-notify_each k (w ∷ ws) ready =
    omega (arith, queued-notify_each k ws (queued w ready), queued-queued k w ready)

parked-unlink :
    (k id : ℕ) (ws : List Awaiter) → parked k (unlink id ws) + destroys k id ws ≡ parked k ws
parked-unlink k id [] = refl
parked-unlink k id (w ∷ ws) = ground (arith, parked-unlink k id ws)

parked-mark : (k id : ℕ) (ws : List Awaiter) → parked k (map (mark id) ws) ≡ parked k ws
parked-mark k id [] = refl
parked-mark k id (w ∷ ws) = ground (arith, parked-mark k id ws)

sweep_one :
    (k : ℕ) (all : Bool) (w : Awaiter) (ready : List Awaiter)
    → active_hit k (sweep_waiter all w)
        + times_queued k (if is_swept all w then ready ++ (sweep_waiter all w ∷ []) else ready)
      ≡ active_hit k w + times_queued k ready
sweep_one k all w ready = ground (arith, queued-append k ready (sweep_waiter all w ∷ []))

sweeps :
    (k : ℕ) (all : Bool) (ws ready : List Awaiter)
    → parked k (map (sweep_waiter all) ws) + times_queued k (swept all ws ready)
      ≡ parked k ws + times_queued k ready
sweeps k all [] ready = refl
sweeps k all (w ∷ ws) ready = omega (
  arith,
  sweeps k all ws (if is_swept all w then ready ++ (sweep_waiter all w ∷ []) else ready),
  sweep_one k all w ready,
)

suspend-Kept :
    (k : ℕ) (e : Event) (id : ℕ) (cancelable stopping : Bool)
    → parked k (suspend e (fresh id cancelable) stopping).2.waiters
        + times_queued k (suspend e (fresh id cancelable) stopping).2.ready
      ≡ parked k e.waiters + times_queued k e.ready + suspends k e (waiting id cancelable stopping)
unfolding suspend
suspend-Kept k e id cancelable stopping =
    if_cases
      (λ (r : Bool × Awaiter × Event).
        parked k r.2.waiters + times_queued k r.2.ready
        ≡ parked k e.waiters
          + times_queued k e.ready
          + (if r.0 then (if id == k then 1 else 0) else 0))
      (cancelable && stopping) _ _ (λ _. omega arith)
      (λ _.
        if_cases
          (λ (r : Bool × Awaiter × Event).
            parked k r.2.waiters + times_queued k r.2.ready
            ≡ parked k e.waiters
              + times_queued k e.ready
              + (if r.0 then (if id == k then 1 else 0) else 0))
          e.is_set _ _
          (λ _. omega (
            arith,
            queued-append k e.ready (retired (record (fresh id cancelable) { active = true }) ∷ []),
          ))
          (λ _. omega arith))

step-Kept :
    (k : ℕ) (e : Event) (o : Op)
    → parked k (step e o).waiters + times_queued k (step e o).ready + drops k e o
      ≡ parked k e.waiters + times_queued k e.ready + suspends k e o
unfolding step set reset suspend destroy request_cancel sweep
step-Kept k e setting =
    omega (arith, parked-retired k e.waiters, queued-notify_each k e.waiters e.ready)
step-Kept k e resetting = refl
step-Kept k e (waiting id cancelable stopping) =
    omega (arith, suspend-Kept k e id cancelable stopping)
step-Kept k e (destroying id) = omega (arith, parked-unlink k id e.waiters)
step-Kept k e (canceling id) = omega (arith, parked-mark k id e.waiters)
step-Kept k e (sweeping all) = omega (arith, sweeps k all e.waiters e.ready)

pub run-Kept :
    (k : ℕ) (e : Event) (os : List Op)
    → parked k (run e os).waiters + times_queued k (run e os).ready + all_drops k e os
      ≡ parked k e.waiters + times_queued k e.ready + all_suspends k e os
unfolding run all_drops all_suspends
run-Kept k e [] = refl
run-Kept k e (o ∷ os) = omega (arith, run-Kept k (step e o) os, step-Kept k e o)
