-- ===== src/Task.antt =====
-- include/snowy/task.hpp: tasks, their awaiters and their promises. A coroutine frame is known by its
-- place in a heap, which says whether it still exists; a task or an awaiter is an object that has a
-- handle or none, `handle_` being null. An exception is a number. A value that was moved out is none.
pub mod Handles
pub mod Owned
pub mod Awaited
mod Tests
use snowy.Prelude.{
  ℕ, zero, suc, ◌+◌, Bool, true, false, not, ◌&&◌, Option, none, some, List, [], ◌∷◌, ◌++◌, ltb,
  ◌==◌, if◌then◌else◌, is_none, length, get_or, set,
}

-- `task_promise`; without a continuation it is the no-op coroutine's handle.
pub record Promise (T : Type 0) : Type 0 where
  pub continuation : Option ℕ
  pub exception : Option ℕ
  pub value : Option T

pub record Frame (T : Type 0) : Type 0 where
  pub alive : Bool
  pub promise : Promise T

pub record Heap (T : Type 0) : Type 0 where
  pub frames : List (Frame T)
  pub holders : List (Option ℕ)

-- What an await expression gives. It is `empty` where `logic_error` is thrown.
pub data Outcome (T : Type 0) : Type 0 where
  returned : T → Outcome T
  raised : ℕ → Outcome T
  empty : Outcome T

module _ {T : Type 0} where
  abbrev pub started : Frame T
  started = record {
    alive = true;
    promise = record { continuation = none; exception = none; value = none };
  }

  -- `set_continuation`, `return_value`, `unhandled_exception`, and the coroutine that final
  -- suspension resumes.
  unfoldable pub set_continuation : ℕ → Promise T → Promise T
  set_continuation c p = record p { continuation = some c }

  unfoldable pub return_value : T → Promise T → Promise T
  return_value v p = record p { value = some v }

  unfoldable pub unhandled_exception : ℕ → Promise T → Promise T
  unhandled_exception e p = record p { exception = some e }

  unfoldable pub final_suspend : Promise T → Option ℕ
  final_suspend p = p.continuation

  -- `take_result`. None stands for a read of an empty optional.
  unfoldable pub take_result : Promise T → Option (Outcome T) × Promise T
  take_result p = elim p.exception [
    | some e ↦ (some (raised e), p)
    | none ↦ elim p.value [
      | some v ↦ (some (returned v), record p { value = none })
      | none ↦ (none, p)
    ]
  ]

  abbrev pub alive_at : List (Frame T) → ℕ → Bool
  alive_at [] k = false
  alive_at (f ∷ fs) zero = f.alive
  alive_at (f ∷ fs) (suc k) = alive_at fs k

  abbrev pub change : (Frame T → Frame T) → ℕ → List (Frame T) → List (Frame T)
  change g k [] = []
  change g zero (f ∷ fs) = g f ∷ fs
  change g (suc k) (f ∷ fs) = f ∷ change g k fs

  abbrev pub ended : Frame T → Frame T
  ended f = record f { alive = false }

  abbrev pub handle : Heap T → ℕ → Option ℕ
  handle h i = get_or h.holders i none

  -- `get_return_object`.
  unfoldable pub create : Heap T → Heap T
  create h = record {
    frames = h.frames ++ (started ∷ []);
    holders = h.holders ++ (some (length h.frames) ∷ []);
  }

  -- The constructor of an empty task, and `operator bool`.
  unfoldable pub create_empty : Heap T → Heap T
  create_empty h = record h { holders = h.holders ++ (none ∷ []) }

  unfoldable pub owns_frame : ℕ → Heap T → Bool
  owns_frame i h = not (is_none (handle h i))

  -- `if (handle_) handle_.destroy();`, none where the frame no longer exists.
  abbrev pub destroy_frame : Option ℕ → List (Frame T) → Option (List (Frame T))
  destroy_frame none fs = some fs
  destroy_frame (some k) fs = if alive_at fs k then some (change ended k fs) else none

  abbrev pub emptied : ℕ → List (Option ℕ) → Option (List (Frame T)) → Option (Heap T)
  emptied i hs none = none
  emptied i hs (some fs) = some (record { frames = fs; holders = set hs i none })

  -- The destructor of a task or of an awaiter.
  unfoldable pub destroy : ℕ → Heap T → Option (Heap T)
  destroy i h = emptied i h.holders (destroy_frame (handle h i) h.frames)

  -- A task that is constructed from another, and the awaiter of `co_await`, take its handle.
  unfoldable pub move_from : ℕ → Heap T → Heap T
  move_from i h = record h { holders = set h.holders i none ++ (handle h i ∷ []) }

  -- The rest of the move assignment: `handle_ = std::exchange(other.handle_, {})`.
  abbrev pub exchanged : ℕ → ℕ → Heap T → Heap T
  exchanged i j h = record h { holders = set (set h.holders j none) i (handle h j) }

  abbrev pub then_exchanged : ℕ → ℕ → Option (Heap T) → Option (Heap T)
  then_exchanged i j none = none
  then_exchanged i j (some h) = some (exchanged i j h)

  unfoldable pub assign : ℕ → ℕ → Heap T → Option (Heap T)
  unfolding destroy
  assign i j h = if i == j then some h else then_exchanged i j (destroy i h)

  unfoldable pub await_ready : ℕ → Heap T → Bool
  await_ready i h = is_none (handle h i)

  -- A use of the promise of an awaiter's frame, none where there is no such frame.
  abbrev pub with_promise : (Promise T → Promise T) → Option ℕ → Heap T → Option (Heap T)
  with_promise g none h = none
  with_promise g (some k) h =
      if alive_at h.frames k
      then some (record h { frames = change (λ f. record f { promise = g f.promise }) k h.frames })
      else none

  -- An await of object `i`: an empty one is ready, another registers the continuation.
  unfoldable pub await_suspend : ℕ → ℕ → Heap T → Option (Heap T)
  unfolding await_ready set_continuation
  await_suspend i c h =
      if await_ready i h then some h else with_promise (set_continuation c) (handle h i) h

  -- `await_resume`, on the heap.
  unfoldable pub await_resume : ℕ → Heap T → Option (Heap T)
  unfolding await_ready take_result
  await_resume i h =
      if await_ready i h then some h else with_promise (λ p. (take_result p).1) (handle h i) h

  abbrev pub promise_at : List (Frame T) → ℕ → Option (Promise T)
  promise_at [] k = none
  promise_at (f ∷ fs) zero = some f.promise
  promise_at (f ∷ fs) (suc k) = promise_at fs k

  abbrev pub taken_from : Option (Promise T) → Option (Outcome T)
  taken_from none = none
  taken_from (some p) = (take_result p).0

  abbrev pub taken_by : List (Frame T) → Option ℕ → Option (Outcome T)
  taken_by fs none = some empty
  taken_by fs (some k) = taken_from (promise_at fs k)

  -- What `await_resume` gives or throws.
  unfoldable pub outcome : ℕ → Heap T → Option (Outcome T)
  unfolding take_result
  outcome i h = taken_by h.frames (handle h i)
