-- ===== src/Kqueue/Queue.antt =====
-- src/kqueue.cpp: the queue itself, from its creation on, its wake-up, and the wait and the events of `poll`.
use snowy.Prelude.{
  ℕ, ◌+◌, ◌*◌, ◌/◌, ◌%◌, ◌<◌, ◌≡◌, Bool, true, false, Option, none, some, List, [], ◌∷◌,
  if◌then◌else◌, arith,
}
use snowy.Kqueue.{
  Errno, Answer, count, failed, is_eintr, change_filter, Request, Driver, Event, handle, submit,
}

-- The descriptor of the queue, if it is open, with the error that the constructor throws.
pub record Queue : Type 0 where
  pub queue : Option ℕ
  pub thrown : Option Errno

-- `if (kevent(...) < 0)` behind the creation: the queue is closed again.
abbrev pub watched : ℕ → Answer → Queue
watched q (count n) = record { queue = some q; thrown = none }
watched q (failed e) = record { queue = none; thrown = some e }

-- The constructor, with the answers of `kqueue` and `kevent`.
unfoldable pub create : Answer → Answer → Queue
create (failed e) user = record { queue = none; thrown = some e }
create (count q) user = watched q user

-- `wake`: whether it returns, and none where the answers run out; else the program is ended.
abbrev pub woken : Option Answer → Option Bool
woken none = none
woken (some (count n)) = some true
woken (some (failed e)) = some false

unfoldable pub wake : List Answer → Option Bool
unfolding change_filter
wake answers = woken (change_filter answers)

-- The seconds and nanoseconds of a delay; a negative one, here none, waits without end.
unfoldable pub timespec : Option ℕ → Option (ℕ × ℕ)
timespec none = none
timespec (some delay) = some (delay / 1000000000, delay % 1000000000)

-- The loop over what the kernel reports, none where the answers of a call run out.
abbrev pub handle_then : (Driver → Option Driver) → Option Driver → Option Driver
handle_then rest none = none
handle_then rest (some d) = rest d

unfoldable pub handle_all : List (Request × Event) → Driver → Option Driver
unfolding submit
handle_all [] d = some d
handle_all ((r, event) ∷ events) d = handle_then (handle_all events) (handle r event d)

abbrev pub unchanged : Option Errno → Driver → Option (Option Errno × Driver)
unchanged e d = some (e, d)

abbrev pub without_error : Option Driver → Option (Option Errno × Driver)
without_error none = none
without_error (some d) = some (none, d)

-- `poll`, with the answer of its wait and the events of that: the error that it throws, and the requests.
unfoldable pub poll : Answer → List (Request × Event) → Driver → Option (Option Errno × Driver)
unfolding handle_all
poll (failed e) events d = if is_eintr e then unchanged none d else unchanged (some e) d
poll (count n) events d = without_error (handle_all events d)

-- The parts of a delay are the delay, and the nanoseconds are less than a second.
abbrev Covers : ℕ → Option (ℕ × ℕ) → Type 0
Covers delay none = ⊥
Covers delay (some (seconds, rest)) = (seconds * 1000000000 + rest ≡ delay) × (rest < 1000000000)

timespec-Covers : (delay : ℕ) → Covers delay (timespec (some delay))
unfolding timespec
timespec-Covers delay = (omega arith, omega arith)
