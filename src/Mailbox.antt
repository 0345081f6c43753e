-- ===== src/Mailbox.antt =====
-- include/snowy/mailbox.hpp, the bounded channel between threads, over the wait queue of
-- include/snowy/detail/wait_queue.hpp. Each operation holds the mutex, so it is one step. Which
-- loops have been stopped is an argument, since loops are not part of the mailbox.
pub mod Refine
pub mod Steps
pub mod Fifo
pub mod Close
mod Tests
use snowy.Prelude.{
  ℕ, zero, suc, length, Bool, true, false, not, Option, none, some, List, [], ◌∷◌, ◌++◌, same,
  if◌then◌else◌,
}
use snowy.Errc.{Errc, broken_pipe, operation_canceled}
use snowy.Buffer.{Buffer, allocate, is_full, put, take_front}
use snowy.WaitQueue.{Waiter, fresh, front, deliver, enqueue, canceled_now}

-- What `mailbox::node` adds to its waiter.
pub record Parcel (T : Type 0) : Type 0 where
  pub sending : Bool
  pub value : Option T

pub record Mailbox (T : Type 0) : Type 0 where
  pub buffer : Buffer T
  pub closed : Bool
  pub waiters : List (Waiter (Parcel T))
  pub sent : List (Waiter (Parcel T))

module _ {T : Type 0} where
  unfoldable pub create : ℕ → Mailbox T
  create capacity = record { buffer = allocate capacity; closed = false; waiters = []; sent = [] }

  abbrev pub with_value : Option T → Waiter (Parcel T) → Waiter (Parcel T)
  with_value v w = record w { payload = record { sending = w.payload.sending; value = v } }

  -- `front(sending)` once the canceled heads are gone: the first waiter, if it has the direction.
  abbrev pub first_of_kind :
      Bool → List (Waiter (Parcel T)) → Option (Waiter (Parcel T)) × List (Waiter (Parcel T))
  first_of_kind wanted [] = (none, [])
  first_of_kind wanted (w ∷ ws) =
      if same w.payload.sending wanted then (some w, ws) else (none, w ∷ ws)

  abbrev pub push_to : Mailbox T → T → Option (Waiter (Parcel T)) → Bool × Mailbox T
  push_to m v (some w) = (true, record m { sent = deliver none (with_value (some v) w) m.sent })
  push_to m v none =
      if is_full m.buffer then (false, m) else (true, record m { buffer = put m.buffer v })

  unfoldable pub push : (ℕ → Bool) → Mailbox T → T → Bool × Mailbox T
  push stopped m v =
      let (ws, sent) = front stopped m.waiters m.sent in
      let (w, us) = first_of_kind false ws in push_to (record m { waiters = us; sent = sent }) v w

  abbrev pub refill : Buffer T → Option T → Buffer T
  refill b none = b
  refill b (some v) = put b v

  -- The sender's value is moved out, then the sender is delivered.
  abbrev pub pop_from : Mailbox T → Option T → Option (Waiter (Parcel T)) → Option T × Mailbox T
  pop_from m value none = (value, m)
  pop_from m (some v) (some w) = (
    some v,
    record m {
      buffer = refill m.buffer w.payload.value;
      sent = deliver none (with_value none w) m.sent;
    },
  )
  pop_from m none (some w) =
      (w.payload.value, record m { sent = deliver none (with_value none w) m.sent })

  unfoldable pub pop : (ℕ → Bool) → Mailbox T → Option T × Mailbox T
  pop stopped m =
      let (value, b) = take_front m.buffer in
      let (ws, sent) = front stopped m.waiters m.sent in
      let (w, us) = first_of_kind true ws in
      pop_from (record m { buffer = b; waiters = us; sent = sent }) value w

  unfoldable pub try_send : (ℕ → Bool) → Mailbox T → T → Bool × Mailbox T
  try_send stopped m v = if not m.closed then push stopped m v else (false, m)

  unfoldable pub try_recv : (ℕ → Bool) → Mailbox T → Option T × Mailbox T
  try_recv stopped m = pop stopped m

  -- `enqueue(h)` at the end of `await_suspend`.
  abbrev pub link :
      (ℕ → Bool) → Mailbox T → Bool → Waiter (Parcel T) → Bool × Waiter (Parcel T) × Mailbox T
  link stopped m requested w =
      let (parked, w', ws) = enqueue stopped requested w m.waiters in
      (parked, w', record m { waiters = ws })

  abbrev pub fail : Errc → Waiter (Parcel T) → Waiter (Parcel T)
  fail e w = record w { error = some e }

  -- `await_suspend` of a sender and of a receiver: whether it stays suspended, and its node.
  -- `first` and `second` are what `canceled_now` and `park` see of the token.
  unfoldable pub send :
      (ℕ → Bool) → Mailbox T → ℕ → ℕ → T → Bool → Bool → Bool × Waiter (Parcel T) × Mailbox T
  send stopped m id owner v first second =
      let w = fresh id owner (record { sending = true; value = some v }) in
      let (pushed, m') = push stopped m v in
      if canceled_now stopped owner first
      then (false, fail operation_canceled w, m)
      else if m.closed
      then (false, fail broken_pipe w, m)
      else if pushed
      then (false, with_value none w, m')
      else link stopped m' second w

  unfoldable pub recv :
      (ℕ → Bool) → Mailbox T → ℕ → ℕ → Bool → Bool → Bool × Waiter (Parcel T) × Mailbox T
  recv stopped m id owner first second =
      let w = fresh id owner (record { sending = false; value = none }) in
      let (value, m') = pop stopped m in
      let waits = if m.closed then (false, w, m') else link stopped m' second w in
      if canceled_now stopped owner first
      then (false, fail operation_canceled w, m)
      else elim value [ some v ↦ (false, with_value (some v) w, m') | none ↦ waits ]

  -- What `close` tells the first waiter.
  abbrev pub close_error : Waiter (Parcel T) → Option Errc
  close_error w = if w.payload.sending then some broken_pipe else none

  -- `while (front(queue_)) deliver(...)`, with a waiter less in each round. The fuel is the number
  -- of waiters.
  unfoldable pub close_loop :
      (ℕ → Bool)
      → ℕ
      → List (Waiter (Parcel T))
      → List (Waiter (Parcel T))
      → List (Waiter (Parcel T)) × List (Waiter (Parcel T))
  close_loop stopped zero ws sent = (ws, sent)
  close_loop stopped (suc fuel) ws sent =
      let (us, s) = front stopped ws sent in
      elim us [ [] ↦ ([], s) | w ∷ vs ↦ close_loop stopped fuel vs (deliver (close_error w) w s) ]

  unfoldable pub close : (ℕ → Bool) → Mailbox T → Mailbox T
  close stopped m =
      let (ws, sent) = close_loop stopped (length m.waiters) m.waiters m.sent in
      record m { closed = true; waiters = ws; sent = sent }
