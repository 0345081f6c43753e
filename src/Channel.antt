-- ===== src/Channel.antt =====
-- include/snowy/channel.hpp, the owner-thread bounded channel. The intrusive list `first_`..`last_`
-- is a list of nodes, oldest first; `Links` has the pointers that carry such a list. A node's own
-- fields live in it while it is linked. `notify` moves the finished node to `ready`, which stands
-- for the loop's ready queue restricted to this channel's awaiters: there the awaiting coroutine
-- finds its value or its error.
pub mod Control
pub mod Invariant
pub mod Matching
pub mod Pop
pub mod Push
pub mod Steps
pub mod Frame
pub mod Flow
pub mod Fifo
pub mod History
pub mod Close
mod Tests
use snowy.Prelude.{
  ℕ, Bool, true, false, not, ◌&&◌, ◌||◌, Option, none, some, List, [], ◌∷◌, ◌++◌, same,
  if◌then◌else◌,
}
use snowy.Buffer.{Buffer, allocate, is_full, put, take_front}
use snowy.Errc.{Errc, operation_canceled, broken_pipe}

-- `channel::node` with the fields of `detail::op` that it uses.
pub record Node (T : Type 0) : Type 0 where
  pub id : ℕ
  pub sending : Bool
  pub value : Option T
  pub active : Bool
  pub canceled : Bool
  pub error : Option Errc

pub record Channel (T : Type 0) : Type 0 where
  pub buffer : Buffer T
  pub closed : Bool
  pub waiters : List (Node T)
  pub ready : List (Node T)
  pub stopped : Bool

module _ {T : Type 0} where
  -- The constructor, on a loop that has not been stopped.
  unfoldable pub create : ℕ → Channel T
  create capacity = record {
    buffer = allocate capacity;
    closed = false;
    waiters = [];
    ready = [];
    stopped = false;
  }

  -- A node as its constructor leaves it.
  abbrev pub send_node : ℕ → T → Node T
  send_node id v = record {
    id = id;
    sending = true;
    value = some v;
    active = false;
    canceled = false;
    error = none;
  }

  abbrev pub recv_node : ℕ → Node T
  recv_node id = record {
    id = id;
    sending = false;
    value = none;
    active = false;
    canceled = false;
    error = none;
  }

  -- `wait::notify`: an inactive node is ignored, an active one is queued as ready.
  abbrev pub notify : Node T → List (Node T) → List (Node T)
  notify w ready = if w.active then ready ++ (record w { active = false } ∷ []) else ready

  -- The test of `take` for a waiter that may be matched.
  abbrev pub is_live : Bool → Node T → Bool
  is_live stopped w = w.active && not w.canceled && not stopped

  abbrev pub fail : Errc → Node T → Node T
  fail e w = record w { error = some e }

  -- `take`: the first live waiter if it has the wanted direction; those before it are pruned.
  unfoldable pub take :
      Bool → Bool → List (Node T) → List (Node T) → Option (Node T) × List (Node T) × List (Node T)
  take stopped wanted [] ready = (none, [], ready)
  take stopped wanted (w ∷ ws) ready =
      let pruned = take stopped wanted ws (notify (fail operation_canceled w) ready) in
      if is_live stopped w
      then (if same w.sending wanted then (some w, ws, ready) else (none, w ∷ ws, ready))
      else pruned

  -- `push` once the waiter is known: hand over, refuse, or buffer.
  abbrev pub push_to : Channel T → T → Option (Node T) → Bool × Channel T
  push_to c v (some r) = (true, record c { ready = notify (record r { value = some v }) c.ready })
  push_to c v none =
      if is_full c.buffer then (false, c) else (true, record c { buffer = put c.buffer v })

  unfoldable pub push : Channel T → T → Bool × Channel T
  push c v =
      let (w, ws, ready) = take c.stopped false c.waiters c.ready in
      push_to (record c { waiters = ws; ready = ready }) v w

  -- `value.emplace(std::move(*sender->value))` on the buffer, where the value is there.
  abbrev pub refill : Buffer T → Option T → Buffer T
  refill b none = b
  refill b (some v) = put b v

  -- A sender whose value has been moved out; what is left in the slot is not read again.
  abbrev pub moved : Node T → Node T
  moved s = record s { value = none }

  -- `pop` once the buffer has been read and the sender is known.
  abbrev pub pop_from : Channel T → Option T → Option (Node T) → Option T × Channel T
  pop_from c value none = (value, c)
  pop_from c (some v) (some s) =
      (some v, record c { buffer = refill c.buffer s.value; ready = notify (moved s) c.ready })
  pop_from c none (some s) = (s.value, record c { ready = notify (moved s) c.ready })

  unfoldable pub pop : Channel T → Option T × Channel T
  pop c =
      let (value, b) = take_front c.buffer in
      let (w, ws, ready) = take c.stopped true c.waiters c.ready in
      pop_from (record c { buffer = b; waiters = ws; ready = ready }) value w

  unfoldable pub try_send : Channel T → T → Bool × Channel T
  try_send c v = if not c.closed && not c.stopped then push c v else (false, c)

  unfoldable pub try_recv : Channel T → Option T × Channel T
  try_recv c = if c.stopped then (none, c) else pop c

  -- `park`, then the node is linked at the end. `requested` is what `arm` sees of the token.
  abbrev pub link : Channel T → Bool → Node T → Bool × Node T × Channel T
  link c requested n =
      if c.stopped || requested
      then (false, fail operation_canceled n, c)
      else (let parked = record n { active = true } in
          (true, parked, record c { waiters = c.waiters ++ (parked ∷ []) }))

  -- `await_suspend` of a sender and of a receiver: whether the coroutine stays suspended, and its
  -- node. The token may be triggered by another thread between the first look at it and `park`.
  unfoldable pub send : Channel T → ℕ → T → Bool → Bool → Bool × Node T × Channel T
  send c id v first second =
      let n = send_node id v in
      let (pushed, c') = push c v in
      if c.stopped || first
      then (false, fail operation_canceled n, c)
      else if c.closed
      then (false, fail broken_pipe n, c)
      else if pushed
      then (false, moved n, c')
      else link c' second n

  unfoldable pub recv : Channel T → ℕ → Bool → Bool → Bool × Node T × Channel T
  recv c id first second =
      let n = recv_node id in
      let (value, c') = pop c in
      let waits = if c.closed then (false, n, c') else link c' second n in
      if c.stopped || first
      then (false, fail operation_canceled n, c)
      else elim value [ some v ↦ (false, record n { value = some v }, c') | none ↦ waits ]

  -- `close`: every waiter is unlinked; a sender fails, a receiver completes with no value.
  abbrev pub reject : Node T → Node T
  reject w = if w.sending then fail broken_pipe w else w

  unfoldable pub close_all : List (Node T) → List (Node T) → List (Node T)
  close_all [] ready = ready
  close_all (w ∷ ws) ready = close_all ws (notify (reject w) ready)

  unfoldable pub close : Channel T → Channel T
  close c = record c { closed = true; waiters = []; ready = close_all c.waiters c.ready }
