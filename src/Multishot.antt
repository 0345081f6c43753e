-- ===== src/Multishot.antt =====
-- include/snowy/uring.hpp and src/uring_net.cpp: a request that completes many times (`stream`), and
-- the loops that arm it again: `accept`, and `watch` and `ticks` of include/snowy/uring_multi.hpp.
-- A consumer is a function of its state, and a round of a loop is the list of completions that the
-- kernel posts for one request.
pub mod Receive
pub mod Feed
pub mod Periodic
pub mod Due
pub mod Ticks
pub mod Leases
mod Tests
use snowy.Prelude.{
  ℕ, zero, suc, ◌+◌, ◌-◌, ◌<◌, Bool, true, false, not, ◌&&◌, ◌||◌, Option, none, some, List, [],
  ◌∷◌, ◌++◌, ltb, ◌==◌, if◌then◌else◌,
}
use snowy.Fault.{
  Fault, invalid_argument, system_error, Result, ok, err, ◌>>=◌, ◌>>◌, throw_if, Code, count,
  failed,
}
use snowy.Registered.Ops.{Table, is_foreign, retain, release, given}

-- What a call of a consumer comes to: true, false, or an exception.
pub data Reply : Type 0 where
  proceed halt : Reply
  raise : Fault → Reply

-- `res` and `flags`.
pub data Cqe : Type 0 where
  cqe : Code → ℕ → Cqe

-- `canceling` says that `stop` has requested the request's cancellation. The error is an `errno`.
pub record Stream (S : Type 0) : Type 0 where
  pub context : S
  pub stopped : Bool
  pub failure : Option Fault
  pub canceling : Bool
  pub error : ℕ
  pub bytes : ℕ

-- The constructor and the destructor, on the table of provided buffers that the stream may pin.
unfoldable pub attach : ℕ → Option Table → Result (Option Table)
attach ring table = do throw_if (is_foreign ring table) invalid_argument; ok (retain table)

unfoldable pub detach : Bool → Option Table → Option (Option Table)
detach active none = if active then none else some none
detach active (some t) = if active then none else some (some (release true t))

abbrev pub canceled : ℕ
canceled = 125

abbrev pub no_buffers : ℕ
no_buffers = 105

abbrev pub timer_expired : ℕ
timer_expired = 62

-- How a round ends: the task returns or throws, or arms another request.
pub data Next : Type 0 where
  returned again : Next
  threw : Fault → Next

-- A round: the request is refused at once, being canceled, or it completes.
pub data Shot : Type 0 where
  early : Shot
  completions : List Cqe → Shot

abbrev pub first_failure : Option Fault → Fault → Option Fault
first_failure none f = some f
first_failure (some g) f = some g

module _ {S : Type 0} where
  abbrev pub fresh : S → Stream S
  fresh s = record {
    context = s;
    stopped = false;
    failure = none;
    canceling = false;
    error = 0;
    bytes = 0;
  }

  abbrev pub stop : Stream S → Stream S
  stop r = record r { stopped = true; canceling = true }

  abbrev pub noted : Code → Stream S → Stream S
  noted (count n) r = record r { bytes = n }
  noted (failed e) r = record r { error = e }

  -- A consumer that wants no more stops the request, and so does an exception, the first being kept.
  abbrev pub replied : S × Reply → Stream S → Stream S
  replied (s, proceed) r = record r { context = s }
  replied (s, halt) r = stop (record r { context = s })
  replied (s, raise f) r = stop (record r { context = s; failure = first_failure r.failure f })

  -- The parts of `receive` and of the other loops that look at the request after its completion.
  -- `rearms` tells the errors after which another request is armed, `ended` that there is no more.
  abbrev pub settled : (Stream S → Bool) → Stream S → Next
  settled ended r = elim r.failure [
    | some f ↦ threw f
    | none ↦ if r.stopped || ended r then returned else again
  ]

  unfoldable pub settle : (ℕ → Bool) → (Stream S → Bool) → Stream S → Next
  settle rearms ended r = if r.error == 0 then settled ended r else elim r.failure [
    | some f ↦ threw f
    | none ↦
        if r.stopped && r.error == canceled
        then returned
        else if rearms r.error
        then settled ended r
        else threw (system_error r.error)
  ]

  -- The next request is armed, or the task ends.
  abbrev pub onward : (S → S × Next) → S → Next → S × Next
  onward more s again = more s
  onward more s returned = (s, returned)
  onward more s (threw f) = (s, threw f)

  module _ (consume : S → Bool → Code → ℕ → S × Reply) where
    -- The request's `result`, for each completion in turn.
    abbrev pub result : Cqe → Stream S → Stream S
    result (cqe res flags) r = replied (consume r.context r.stopped res flags) (noted res r)

    unfoldable pub deliver : List Cqe → Stream S → Stream S
    deliver [] r = r
    deliver (c ∷ cs) r = deliver cs (result c r)

    unfoldable pub shoot : Shot → S → Stream S
    shoot early s = record (fresh s) { error = canceled }
    shoot (completions cs) s = deliver cs (fresh s)

    -- `for (;;)` over the requests that are armed, with the error and end tests of a loop.
    unfoldable pub rounds : (ℕ → Bool) → (Stream S → Bool) → List Shot → S → S × Next
    rounds rearms ended [] s = (s, again)
    rounds rearms ended (shot ∷ shots) s =
        let r = shoot shot s in
        onward (λ s'. rounds rearms ended shots s') r.context (settle rearms ended r)

abbrev pub never {ℓ} : {A : Type ℓ} → A → Bool
never a = false

-- What `accept` does with sockets: a consumer has them, or they are closed.
pub record Accepting (U : Type 0) : Type 0 where
  pub user : U
  pub closed : List ℕ

module _ {U : Type 0} where
  abbrev pub called : Accepting U → U × Reply → Accepting U × Reply
  called s (u, r) = (record s { user = u }, r)

  abbrev pub close : Accepting U → ℕ → Accepting U
  close s fd = record s { closed = s.closed ++ (fd ∷ []) }

module _ {U : Type 0} (fn : U → ℕ → U × Reply) where
  -- `watch`: readiness goes to the consumer unless the request was stopped.
  abbrev pub observe : U → Bool → Code → ℕ → U × Reply
  observe u stopped (failed e) flags = (u, proceed)
  observe u true (count events) flags = (u, proceed)
  observe u false (count events) flags = fn u events

  unfoldable pub watch : List Shot → U → U × Next
  watch shots u = rounds observe never never shots u

  -- `accept`: a socket that comes after a stop is closed. The completions are handled on the owner's
  -- thread and `fcntl` is taken to succeed on a socket that the kernel has just accepted, so
  -- `access::adopt` does not throw.
  abbrev pub adopt : Accepting U → Bool → Code → ℕ → Accepting U × Reply
  adopt s stopped (failed e) flags = (s, proceed)
  adopt s true (count fd) flags = (close s fd, proceed)
  adopt s false (count fd) flags = called s (fn s.user fd)

  unfoldable pub accept : List Shot → U → Accepting U × Next
  accept shots u = rounds adopt never never shots (record { user = u; closed = [] })
