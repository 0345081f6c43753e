-- ===== src/WaitQueue.antt =====
-- include/snowy/detail/wait_queue.hpp: the shared queue of coroutine-owned waiters, each with the
-- loop that resumes it. All of it runs under the queue's mutex, so one operation is one step. The
-- intrusive list `first`..`last` is the list `waiters`, oldest first, of the linked nodes; a node
-- that `deliver` has sent to its loop stands in `sent` until that loop runs its message.
pub mod Front
use snowy.Prelude.{
  ℕ, ◌+◌, ◌-◌, Bool, true, false, ◌&&◌, ◌||◌, Option, none, some, List, [], ◌∷◌, ◌++◌, ◌==◌,
  if◌then◌else◌, is_empty,
}
use snowy.Errc.{Errc, operation_canceled}

-- `remote_wait`; `payload` is what the deriving awaiter adds.
pub record Waiter (P : Type 0) : Type 0 where
  pub id : ℕ
  pub owner : ℕ
  pub interruptible : Bool
  pub canceled : Bool
  pub error : Option Errc
  pub payload : P

pub record WaitQueue (P : Type 0) : Type 0 where
  pub waiters : List (Waiter P)
  pub sent : List (Waiter P)
  pub users : ℕ

-- `canceled_now`, and the look of `arm` inside `park`: the loop's stop or the token's.
abbrev pub canceled_now : (ℕ → Bool) → ℕ → Bool → Bool
canceled_now stopped owner requested = stopped owner || requested

module _ {P : Type 0} where
  abbrev pub fresh : ℕ → ℕ → P → Waiter P
  fresh id owner p = record {
    id = id;
    owner = owner;
    interruptible = true;
    canceled = false;
    error = none;
    payload = p;
  }

  unfoldable pub empty : WaitQueue P
  empty = record { waiters = []; sent = []; users = 0 }

  -- The constructor and the destructor of a waiter count it.
  unfoldable pub enter : WaitQueue P → WaitQueue P
  enter q = record q { users = q.users + 1 }

  unfoldable pub leave : WaitQueue P → WaitQueue P
  leave q = record q { users = q.users - 1 }

  -- `deliver`, of a waiter that has been unlinked.
  abbrev pub deliver : Option Errc → Waiter P → List (Waiter P) → List (Waiter P)
  deliver failure w sent = sent ++ (record w { error = failure } ∷ [])

  -- The test of `front`: the waiter's cancellation or its loop's stop is due.
  abbrev pub is_due : (ℕ → Bool) → Waiter P → Bool
  is_due stopped w = w.interruptible && (w.canceled || stopped w.owner)

  -- `front`: canceled heads are delivered, and the waiters from the first live one on are left.
  unfoldable pub front :
      (ℕ → Bool) → List (Waiter P) → List (Waiter P) → List (Waiter P) × List (Waiter P)
  front stopped [] sent = ([], sent)
  front stopped (w ∷ ws) sent =
      let rest = front stopped ws (deliver (some operation_canceled) w sent) in
      if is_due stopped w then rest else (w ∷ ws, sent)

  -- `enqueue`: `park` fails if an interruptible waiter is canceled by now.
  unfoldable pub enqueue :
      (ℕ → Bool) → Bool → Waiter P → List (Waiter P) → Bool × Waiter P × List (Waiter P)
  enqueue stopped requested w ws =
      if w.interruptible && canceled_now stopped w.owner requested
      then (false, record w { error = some operation_canceled }, ws)
      else (true, w, ws ++ (w ∷ []))

  -- `interrupt`, the hook that the owner loop's sweep calls: a waiter that is still linked is
  -- unlinked and comes back with its error, to be notified; one already delivered is left alone.
  unfoldable pub interrupt : ℕ → List (Waiter P) → Option (Waiter P) × List (Waiter P)
  interrupt id [] = (none, [])
  interrupt id (w ∷ ws) =
      let (found, rest) = interrupt id ws in
      if w.id == id
      then (some (record w { error = some operation_canceled }), ws)
      else (found, w ∷ rest)
