-- ===== src/Spawn.antt =====
-- include/snowy/spawn.hpp: the result of a spawned task, shared by the task and its join handle. The
-- handle waits on the futex of `complete`, which is 0 or 1. A handle that blocks its thread waits for
-- `done` instead. `publish` takes three steps, since other threads run between them.
pub mod Join
pub mod Handles
pub mod Wait
mod Tests
use snowy.Prelude.{ℕ, Bool, true, false, Option, none, some, List, [], ◌∷◌, ◌==◌, if◌then◌else◌}
use snowy.WaitQueue.{Waiter}
use snowy.Futex.{Futex, awaiter, wait, notify_all}
use snowy.When.{Outcome, value, thrown}

-- How far `publish` has come.
pub data Stage : Type 0 where
  running stored completed announced : Stage

pub record SpawnState (V : Type 0) : Type 0 where
  pub result : Option V
  pub error : Option ℕ
  pub done : Bool
  pub signal : Futex
  pub stage : Stage

-- What `take` gives: the value of an empty slot is undefined.
pub data Taken (V : Type 0) : Type 0 where
  returned : V → Taken V
  raised : ℕ → Taken V
  undefined : Taken V

module _ {V : Type 0} where
  unfoldable pub create : SpawnState V
  create = record {
    result = none;
    error = none;
    done = false;
    signal = record { value = 0; waiters = []; sent = [] };
    stage = running;
  }

  unfoldable pub take : SpawnState V → Taken V
  take s = elim s.error [
    | some e ↦ raised e
    | none ↦ elim s.result [ none ↦ undefined | some v ↦ returned v ]
  ]

  -- The child has ended: its value or its exception is stored.
  abbrev pub result_after : Outcome V → Option V → Option V
  result_after (value v) old = some v
  result_after (thrown e) old = old

  abbrev pub error_after : Outcome V → Option ℕ → Option ℕ
  error_after (value v) old = old
  error_after (thrown e) old = some e

  unfoldable pub store : SpawnState V → Outcome V → SpawnState V
  store s o = record s {
    result = result_after o s.result;
    error = error_after o s.error;
    stage = stored;
  }

  -- Under the mutex: `done`, `complete`, and the blocked thread is notified.
  unfoldable pub complete : SpawnState V → SpawnState V
  complete s = record s { done = true; signal = record s.signal { value = 1 }; stage = completed }

  module _ (stopped : ℕ → Bool) where
    unfoldable pub announce : SpawnState V → SpawnState V
    announce s = record s { signal = notify_all stopped s.signal; stage = announced }

    -- `publish`, one step; nothing is left to do after the last.
    unfoldable pub publish : Outcome V → SpawnState V → SpawnState V
    publish o s = elim s.stage [
      | running ↦ store s o
      | stored ↦ complete s
      | completed ↦ announce s
      | announced ↦ s
    ]

    -- `join`: a waiter that no stop interrupts, for the value false of `complete`.
    unfoldable pub join : SpawnState V → ℕ → ℕ → Bool × Waiter ℕ × SpawnState V
    join s id owner =
        let (suspended, w, f) = wait stopped s.signal (awaiter id owner 0 false) false false in
        (suspended, w, record s { signal = f })
