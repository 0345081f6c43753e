-- ===== src/Loop.antt =====
-- include/snowy/loop.hpp and src/loop.cpp, the owner-thread event loop, and the wait nodes of
-- include/snowy/event.hpp that it keeps. The intrusive lists and the vectors are lists; a coroutine,
-- a callback and a message are known by a number. `signaled` is the state of the native wake source
-- that `wake` raises and that polling takes back. Native I/O requests are in `ios`.
pub mod Heap
pub mod Expire
pub mod Due
pub mod Cancel
pub mod Wake
pub mod Run
pub mod Exit
pub mod Ends
pub mod Batch
mod Tests
use snowy.Prelude.{
  ℕ, suc, ◌+◌, ◌-◌, Bool, true, false, not, ◌&&◌, ◌||◌, Option, none, some, List, [], ◌∷◌, ◌++◌,
  ltb, leb, ◌==◌, if◌then◌else◌, is_empty, is_none, length, map,
}
use snowy.Errc.{Errc, operation_canceled}

-- A queued continuation with the terminal error that it will observe.
pub record Work : Type 0 where
  pub id : ℕ
  pub error : Option Errc

-- `loop::timer`, with the flag of its stop callback.
pub record Timer : Type 0 where
  pub id : ℕ
  pub due : ℕ
  pub canceled : Bool

-- `detail::wait`. `hook` is none without an interrupt hook; with the hook of a remote waiter it says
-- whether the waiter is still linked in its queue.
pub record Wait : Type 0 where
  pub id : ℕ
  pub interruptible : Bool
  pub canceled : Bool
  pub hook : Option Bool

-- `detail::io`, as far as the loop looks at it.
pub record Io : Type 0 where
  pub id : ℕ
  pub canceled : Bool
  pub canceling : Bool
  pub cancel_sent : Bool

pub record Loop : Type 0 where
  pub ready : List Work
  pub timers : List Timer
  pub waits : List Wait
  pub ios : List Io
  pub posts : List ℕ
  pub messages : List ℕ
  pub holds : ℕ
  pub stopping : Bool
  pub cancel : Bool
  pub signaled : Bool
  pub roots : ℕ
  pub budget : ℕ
  pub running : Bool
  pub error : Option ℕ

unfoldable pub create : ℕ → Loop
create budget = record {
  ready = [];
  timers = [];
  waits = [];
  ios = [];
  posts = [];
  messages = [];
  holds = 0;
  stopping = false;
  cancel = false;
  signaled = false;
  roots = 0;
  budget = budget;
  running = false;
  error = none;
}

abbrev pub wake : Loop → Loop
wake l = record l { signaled = true }

-- `message::send`: only the first of a batch raises the wake source.
unfoldable pub send : Loop → ℕ → Loop
send l m =
    let sent = record l { messages = l.messages ++ (m ∷ []) } in
    if is_empty l.messages then wake sent else sent

-- `loop::post` of a function that is not empty.
unfoldable pub post : Loop → ℕ → Loop
post l fn =
    let posted = record l { posts = l.posts ++ (fn ∷ []) } in
    if length posted.posts == 1 then wake posted else posted

unfoldable pub stop : Loop → Loop
stop l = wake (record l { stopping = true; cancel = true })

-- `fail`: the first error is kept.
unfoldable pub fail : Loop → ℕ → Loop
unfolding stop
fail l e = stop (record l { error = (if is_none l.error then some e else l.error) })

-- `keep_alive` and the end of its guard.
unfoldable pub hold : Loop → Loop
hold l = record l { holds = l.holds + 1 }

unfoldable pub release : Loop → Loop
release l = wake (record l { holds = l.holds - 1 })

-- `finish`: the operation's coroutine is queued.
abbrev pub finish : ℕ → Option Errc → List Work → List Work
finish id error ready = ready ++ (record { id = id; error = error } ∷ [])

-- `arm`: refused once the loop is stopping or the token has been triggered.
abbrev pub arm : Loop → Bool → Bool
arm l requested = not (l.stopping || requested)

-- `yield::await_suspend`.
unfoldable pub schedule : Loop → ℕ → Loop
schedule l id = record l { ready = finish id none l.ready }

-- The operation that a stop callback belongs to.
pub data Target : Type 0 where
  timer_of wait_of io_of : ℕ → Target

abbrev pub cancel_timer : ℕ → Timer → Timer
cancel_timer id t = if t.id == id then record t { canceled = true } else t

abbrev pub cancel_wait : ℕ → Wait → Wait
cancel_wait id w = if w.id == id then record w { canceled = true } else w

abbrev pub cancel_request : ℕ → Io → Io
cancel_request id op = if op.id == id then record op { canceled = true } else op

-- `target->canceled.store(true)`.
abbrev pub mark : Target → Loop → Loop
mark (timer_of id) l = record l { timers = map (cancel_timer id) l.timers }
mark (wait_of id) l = record l { waits = map (cancel_wait id) l.waits }
mark (io_of id) l = record l { ios = map (cancel_request id) l.ios }

-- `cancel_fn`, on whatever thread requests the stop.
unfoldable pub request_cancel : Target → Loop → Loop
request_cancel target l = wake (record (mark target l) { cancel = true })

-- `spawn` of a task: its root is queued like a yield.
unfoldable pub spawn : Loop → ℕ → Loop
spawn l id = record l { roots = l.roots + 1; ready = finish id none l.ready }

-- The end of a root's coroutine, with the error that its task left.
unfoldable pub end_root : Loop → Option ℕ → Loop
unfolding fail
end_root l none = record l { roots = l.roots - 1 }
end_root l (some e) = let failed = fail l e in record failed { roots = failed.roots - 1 }

-- The deadline of `sleep`; `latest` is `time_point::max()` and `now` is not after it.
unfoldable pub sleep_due : ℕ → ℕ → ℕ → Bool → ℕ
sleep_due latest now delay positive =
    if not positive then now else if leb (latest - now) delay then latest else now + delay

-- `wait::park` and `wait::notify`. An interruptible wait is armed first; the latest wait stands in
-- front.
unfoldable pub park : Loop → Wait → Bool → Bool × Loop
park l w requested =
    if w.interruptible && not (arm l requested)
    then (false, l)
    else (true, record l { waits = w ∷ l.waits })

abbrev pub unlink : ℕ → List Wait → List Wait
unlink id [] = []
unlink id (w ∷ ws) = let rest = unlink id ws in if w.id == id then ws else w ∷ rest

abbrev pub is_parked : ℕ → List Wait → Bool
is_parked id [] = false
is_parked id (w ∷ ws) = w.id == id || is_parked id ws

unfoldable pub notify : Loop → ℕ → Option Errc → Loop
notify l id error =
    if is_parked id l.waits
    then record l { waits = unlink id l.waits; ready = finish id error l.ready }
    else l
