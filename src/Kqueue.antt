-- ===== src/Kqueue.antt =====
-- src/kqueue.cpp: requests on sockets over the readiness of a kernel queue. A request is tried at once
-- and armed when it would wait; its readiness tries it again. The answers of system calls are
-- arguments, as lists where a call is made again after an interruption.
pub mod Single
pub mod Effect
pub mod Once
pub mod Queue
pub mod Returns
mod Tests
use snowy.Prelude.{
  ℕ, zero, suc, ◌+◌, Bool, true, false, not, ◌&&◌, ◌||◌, Option, none, some, List, [], ◌∷◌, ◌++◌,
  ltb, ◌==◌, if◌then◌else◌, same,
}

-- The values of `errno` that the source names.
pub data Errno : Type 0 where
  eintr eagain einprogress enoent : Errno
  operation_not_supported message_size operation_canceled : Errno
  other : ℕ → Errno

-- What a system call returns.
pub data Answer : Type 0 where
  count : ℕ → Answer
  failed : Errno → Answer

abbrev pub is_eintr : Errno → Bool
is_eintr eintr = true
is_eintr _ = false

abbrev pub is_enoent : Errno → Bool
is_enoent enoent = true
is_enoent _ = false

-- `detail::opcode`.
pub data Opcode : Type 0 where
  nop read write accept connect recv_from send_to file_read file_write file_sync : Opcode

-- The parts of a request that the driver uses. `started` says that a connection was begun, and
-- `error` is none for success.
pub record Request : Type 0 where
  pub id : ℕ
  pub code : Opcode
  pub fd : ℕ
  pub started : Bool
  pub bytes : ℕ
  pub accepted : Option ℕ
  pub error : Option Errno
  pub cancel_sent : Bool

-- The requests that a filter of the queue names, by their descriptors and directions, and those that
-- `complete` was called with, the last first.
pub record Driver : Type 0 where
  pub filters : List Request
  pub completed : List Request

-- `filter`.
unfoldable pub reads : Opcode → Bool
reads read = true
reads accept = true
reads recv_from = true
reads _ = false

abbrev pub is_connect : Opcode → Bool
is_connect connect = true
is_connect _ = false

abbrev pub is_accept : Opcode → Bool
is_accept accept = true
is_accept _ = false

abbrev pub is_recv_from : Opcode → Bool
is_recv_from recv_from = true
is_recv_from _ = false

abbrev pub is_nop : Opcode → Bool
is_nop nop = true
is_nop _ = false

abbrev pub is_file : Opcode → Bool
is_file file_read = true
is_file file_write = true
is_file file_sync = true
is_file _ = false

-- The answer to an attempt, with `MSG_TRUNC` of a received message.
pub record Attempt : Type 0 where
  pub answer : Answer
  pub truncated : Bool

-- What one pass of the `switch` leaves in the request.
abbrev pub attempted : Request → Attempt → Request
attempted r a = record r {
  started = is_connect r.code || r.started;
  error = elim a.answer [
    | count n ↦ if is_recv_from r.code && a.truncated then some message_size else r.error
    | failed e ↦ r.error
  ];
}

-- The attempts, none where the answers run out. A connection is not tried again.
unfoldable pub attempt : Request → List Attempt → Option (Request × Answer)
attempt r [] = none
attempt r (a ∷ answers) =
    let rest = attempt (attempted r a) answers in
    elim a.answer [
      | count n ↦ some (attempted r a, count n)
      | failed e ↦
          if is_eintr e && not (is_connect r.code) then rest else some (attempted r a, failed e)
    ]

-- `EAGAIN`, which is `EWOULDBLOCK`, and `EINPROGRESS`.
abbrev pub would_wait : Opcode → Errno → Bool
would_wait code eagain = true
would_wait code einprogress = true
would_wait code eintr = is_connect code
would_wait code _ = false

-- A call of `kevent` that is made again after an interruption, none where the answers run out.
unfoldable pub change_filter : List Answer → Option Answer
change_filter [] = none
change_filter (count n ∷ answers) = some (count n)
change_filter (failed e ∷ answers) =
    let rest = change_filter answers in if is_eintr e then rest else some (failed e)

abbrev pub complete : Request → Driver → Driver
complete r d = record d { completed = r ∷ d.completed }

-- The queue has one filter for a descriptor and a direction: another takes its place.
abbrev pub same_filter : Request → Request → Bool
same_filter r f = f.fd == r.fd && same (reads f.code) (reads r.code)

abbrev pub forget : Request → List Request → List Request
forget r [] = []
forget r (f ∷ fs) = let rest = forget r fs in if same_filter r f then rest else f ∷ rest

abbrev pub add_filter : Request → Driver → Driver
add_filter r d = record d { filters = forget r d.filters ++ (r ∷ []) }

abbrev pub succeeded : Request → ℕ → Request
succeeded r n = if is_accept r.code then record r { accepted = some n } else record r { bytes = n }

abbrev pub armed : Request → Option Answer → Driver → Option Driver
armed r none d = none
armed r (some (count n)) d = some (add_filter r d)
armed r (some (failed e)) d = some (complete (record r { error = some e }) d)

abbrev pub settled : Option (Request × Answer) → List Answer → Driver → Option Driver
settled none changes d = none
settled (some (r, count n)) changes d = some (complete (succeeded r n) d)
settled (some (r, failed e)) changes d =
    if would_wait r.code e
    then armed r (change_filter changes) d
    else some (complete (record r { error = some e }) d)

-- `submit`. A `nop` needs no call.
unfoldable pub submit : Request → List Attempt → List Answer → Driver → Option Driver
unfolding attempt change_filter reads
submit r answers changes d =
    if is_file r.code
    then some (complete (record r { error = some operation_not_supported }) d)
    else if is_nop r.code
    then some (complete (succeeded r 0) d)
    else settled (attempt r answers) changes d

-- What `cancel` does behind its call: it throws an error, or the request is completed. The filter is gone when
-- the call succeeds, and when there was none.
abbrev pub released : Request → Driver → Driver
released r d = record d { filters = forget r d.filters }

abbrev pub canceled_request : Request → Request
canceled_request r = record r { cancel_sent = true; error = some operation_canceled }

abbrev pub deleted : Request → Option Answer → Driver → Option (Option Errno × Driver)
deleted r none d = none
deleted r (some (count n)) d = some (none, complete (canceled_request r) (released r d))
deleted r (some (failed e)) d =
    some (if is_enoent e then (none, complete (canceled_request r) (released r d)) else (some e, d))

unfoldable pub cancel : Request → List Answer → Driver → Option (Option Errno × Driver)
unfolding change_filter reads
cancel r changes d = deleted r (change_filter changes) d

-- An event of a filter, which fires once: an error of the filter, or readiness. The filter is gone.
pub data Event : Type 0 where
  user : Event
  filter_error : Errno → Event
  ready : List Attempt → List Answer → Event

-- The loop of `poll` over what the kernel reports, each event with the request that it names.
abbrev pub handle : Request → Event → Driver → Option Driver
handle r user d = some d
handle r (filter_error e) d = some (complete (record r { error = some e }) (released r d))
handle r (ready answers changes) d = submit r answers changes (released r d)
