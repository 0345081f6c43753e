-- ===== src/Pool/Steps.antt =====
-- Runs of the pool of pool.cpp: its callers and its workers, in any order.
use snowy.Prelude.{
  ℕ, ◌+◌, ◌-◌, Bool, true, false, Option, none, some, List, [], ◌∷◌, ◌++◌, ◌==◌, if◌then◌else◌,
}
use snowy.Pool.{Pool, enqueue, close, notify_one, notify_all, look, finish}

pub data Event : Type 0 where
  -- `enqueue`, and later the notification of some earlier call.
  queued : ℕ → Event
  notified : Event
  -- `close`, and later its notification.
  closed : Event
  announced : Event
  -- A worker that is awake looks; one that sleeps wakes by itself; one in a job returns from it.
  looked : Event
  stirred : Event
  finished : Event

-- The pool with the notifications that are still to come, the jobs that were accepted and those that
-- workers have taken.
pub record Run : Type 0 where
  pub pool : Pool
  pub owed : ℕ
  pub owes_all : Bool
  pub accepted : List ℕ
  pub taken : List ℕ

abbrev pub queue : Run → ℕ → Option Pool → Run
queue r job none = r
queue r job (some p) = record r { pool = p; owed = r.owed + 1; accepted = r.accepted ++ (job ∷ []) }

abbrev pub took : Run → Option ℕ × Pool → Run
took r (none, p) = record r { pool = p }
took r (some job, p) = record r { pool = p; taken = r.taken ++ (job ∷ []) }

-- An event that cannot happen now changes nothing.
unfoldable pub step : Run → Event → Run
step r (queued job) = queue r job (enqueue r.pool job)
step r notified =
    if r.owed == 0 then r else record r { pool = notify_one r.pool; owed = r.owed - 1 }
step r closed = record r { pool = close r.pool; owes_all = true }
step r announced = if r.owes_all then record r { pool = notify_all r.pool; owes_all = false } else r
step r looked = if r.pool.polling == 0 then r else took r (look r.pool)
step r stirred = record r { pool = notify_one r.pool }
step r finished = if r.pool.busy == 0 then r else record r { pool = finish r.pool }

unfoldable pub run : Run → List Event → Run
run r [] = r
run r (e ∷ es) = run (step r e) es

abbrev pub start : Pool → Run
start p = record { pool = p; owed = 0; owes_all = false; accepted = []; taken = [] }
