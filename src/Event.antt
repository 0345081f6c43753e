-- ===== src/Event.antt =====
-- include/snowy/event.hpp: the manual-reset event of one loop, with the loop's wait nodes. `active`
-- says that a waiter is parked with the loop; it stays linked in the event until its awaiter is
-- destroyed. What the event queues on the loop's ready queue stands in `ready`.
pub mod Steps
pub mod Kept
pub mod Wake
mod Tests
use snowy.Prelude.{
  ℕ, Bool, true, false, not, ◌&&◌, ◌||◌, Option, none, some, List, [], ◌∷◌, ◌++◌, map, ◌==◌,
  if◌then◌else◌,
}
use snowy.Errc.{Errc, operation_canceled}

pub record Awaiter : Type 0 where
  pub id : ℕ
  pub interruptible : Bool
  pub canceled : Bool
  pub active : Bool
  pub error : Option Errc

pub record Event : Type 0 where
  pub is_set : Bool
  pub waiters : List Awaiter
  pub ready : List Awaiter

unfoldable pub create : Event
create = record { is_set = false; waiters = []; ready = [] }

-- `wait`, which honors a stop, or `join`, which does not.
abbrev pub fresh : ℕ → Bool → Awaiter
fresh id cancelable = record {
  id = id;
  interruptible = cancelable;
  canceled = false;
  active = false;
  error = none;
}

-- `notify` on a waiter, and what that queues.
abbrev pub retired : Awaiter → Awaiter
retired w = record w { active = false }

abbrev pub queued : Awaiter → List Awaiter → List Awaiter
queued w ready = if w.active then ready ++ (retired w ∷ []) else ready

-- `for (auto* w = head_; w; w = w->next_) w->notify();`
unfoldable pub notify_each : List Awaiter → List Awaiter → List Awaiter
notify_each [] ready = ready
notify_each (w ∷ ws) ready = notify_each ws (queued w ready)

unfoldable pub set : Event → Event
set e = record {
  is_set = true;
  waiters = map retired e.waiters;
  ready = notify_each e.waiters e.ready;
}

unfoldable pub reset : Event → Event
reset e = record e { is_set = false }

-- `await_suspend`. `stopping` is the loop's stop or the token's; the newest waiter stands in front.
unfoldable pub suspend : Event → Awaiter → Bool → Bool × Awaiter × Event
suspend e w stopping =
    let parked = record w { active = true } in
    if w.interruptible && stopping
    then (false, record w { error = some operation_canceled }, e)
    else if e.is_set
    then (
      true,
      retired parked,
      record e { waiters = retired parked ∷ e.waiters; ready = e.ready ++ (retired parked ∷ []) },
    )
    else (true, parked, record e { waiters = parked ∷ e.waiters })

-- The destructor of an awaiter.
abbrev pub unlink : ℕ → List Awaiter → List Awaiter
unlink id [] = []
unlink id (w ∷ ws) = let rest = unlink id ws in if w.id == id then ws else w ∷ rest

unfoldable pub destroy : Event → ℕ → Event
destroy e id = record e { waiters = unlink id e.waiters }

-- A stop callback marks its waiter, and the loop's sweep ends the marked ones, all if it stops.
abbrev pub mark : ℕ → Awaiter → Awaiter
mark id w = if w.id == id then record w { canceled = true } else w

unfoldable pub request_cancel : Event → ℕ → Event
request_cancel e id = record e { waiters = map (mark id) e.waiters }

abbrev pub is_swept : Bool → Awaiter → Bool
is_swept all w = w.active && w.interruptible && (all || w.canceled)

abbrev pub sweep_waiter : Bool → Awaiter → Awaiter
sweep_waiter all w =
    if is_swept all w then record w { active = false; error = some operation_canceled } else w

abbrev pub swept : Bool → List Awaiter → List Awaiter → List Awaiter
swept all [] ready = ready
swept all (w ∷ ws) ready =
    swept all ws (if is_swept all w then ready ++ (sweep_waiter all w ∷ []) else ready)

unfoldable pub sweep : Event → Bool → Event
sweep e all = record e {
  waiters = map (sweep_waiter all) e.waiters;
  ready = swept all e.waiters e.ready;
}
