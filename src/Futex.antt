-- ===== src/Futex.antt =====
-- include/snowy/futex.hpp: coroutines wait on the wait queue of include/snowy/detail/wait_queue.hpp
-- while an external atomic holds an expected value. The atomic's value is a number. Each operation
-- holds the queue's mutex, so it is one step; the store into the atomic is a step of its own.
pub mod Notify
pub mod Kept
pub mod Wakeup
mod Tests
use snowy.Prelude.{
  ℕ, zero, suc, Bool, true, false, not, ◌&&◌, Option, none, some, List, [], ◌∷◌, ◌++◌, ◌==◌,
  if◌then◌else◌, length,
}
use snowy.Errc.{operation_canceled}
use snowy.WaitQueue.{Waiter, front, deliver, enqueue, canceled_now, interrupt}

-- The payload of a waiter is the value `old` that it expects.
pub record Futex : Type 0 where
  pub value : ℕ
  pub waiters : List (Waiter ℕ)
  pub sent : List (Waiter ℕ)

-- `futex::awaiter`, by `wait` or, not cancelable, by `join`.
abbrev pub awaiter : ℕ → ℕ → ℕ → Bool → Waiter ℕ
awaiter id owner old cancelable = record {
  id = id;
  owner = owner;
  interruptible = cancelable;
  canceled = false;
  error = none;
  payload = old;
}

-- `if (auto* w = front(queue_)) w->deliver();`
abbrev pub deliver_first : Futex → List (Waiter ℕ) → List (Waiter ℕ) → Futex
deliver_first f [] sent = record f { waiters = []; sent = sent }
deliver_first f (w ∷ ws) sent = record f { waiters = ws; sent = deliver none w sent }

module _ (stopped : ℕ → Bool) where
  -- `await_suspend`. `first` and `second` are what the two looks at the token see.
  unfoldable pub wait : Futex → Waiter ℕ → Bool → Bool → Bool × Waiter ℕ × Futex
  wait f w first second =
      let (parked, w', ws) = enqueue stopped second w f.waiters in
      if w.interruptible && canceled_now stopped w.owner first
      then (false, record w { error = some operation_canceled }, f)
      else if not (f.value == w.payload)
      then (false, w, f)
      else (parked, w', record f { waiters = ws })

  unfoldable pub notify_one : Futex → Futex
  notify_one f = let (ws, sent) = front stopped f.waiters f.sent in deliver_first f ws sent

  -- `while (auto* w = front(queue_)) w->deliver();`, with a waiter less in each round.
  unfoldable pub notify_loop :
      ℕ → List (Waiter ℕ) → List (Waiter ℕ) → List (Waiter ℕ) × List (Waiter ℕ)
  notify_loop zero ws sent = (ws, sent)
  notify_loop (suc fuel) ws sent =
      let (us, s) = front stopped ws sent in
      elim us [ [] ↦ ([], s) | w ∷ vs ↦ notify_loop fuel vs (deliver none w s) ]

  unfoldable pub notify_all : Futex → Futex
  notify_all f =
      let (ws, sent) = notify_loop (length f.waiters) f.waiters f.sent in
      record f { waiters = ws; sent = sent }
