-- ===== src/Spawn/Wait.antt =====
-- include/snowy/sync_wait.hpp: a thread that blocks until a task completes. `wait_task` takes two steps, since the
-- thread may look between them.
use snowy.Prelude.{Bool, true, false, Option, none, some, ℕ, if◌then◌else◌}
use snowy.When.{Outcome}
use snowy.Spawn.{Taken, returned, raised, undefined, result_after, error_after}

pub record WaitState (V : Type 0) : Type 0 where
  pub result : Option V
  pub error : Option ℕ
  pub done : Bool

module _ {V : Type 0} where
  unfoldable pub create : WaitState V
  create = record { result = none; error = none; done = false }

  -- The task has ended: its value or its exception is kept.
  unfoldable pub keep_result : Outcome V → WaitState V → WaitState V
  keep_result o s = record s { result = result_after o s.result; error = error_after o s.error }

  -- Under the mutex.
  unfoldable pub finish : WaitState V → WaitState V
  finish s = record s { done = true }

  abbrev pub value_of : Option V → Taken V
  value_of none = undefined
  value_of (some v) = returned v

  abbrev pub taken : Option ℕ → Option V → Taken V
  taken (some e) result = raised e
  taken none result = value_of result

  -- `sync_wait` when the thread looks, none while it has to wait.
  unfoldable pub sync_wait : WaitState V → Option (Taken V)
  sync_wait s = if s.done then some (taken s.error s.result) else none
