-- ===== src/Spawn/Handles.antt =====
-- include/snowy/spawn.hpp: join handles, by number, with the states that they refer to, and how a result is
-- consumed. A state is known by its number.
pub mod Consumed
use snowy.Prelude.{
  ℕ, ◌+◌, Bool, true, false, not, Option, none, some, List, [], ◌∷◌, ◌++◌, ◌==◌, if◌then◌else◌,
  is_none, get_or, set,
}
use snowy.Fault.{
  Fault, invalid_argument, logic_error, Result, err, ok, ◌>>◌, ◌>>=◌, throw_if, check,
}
use snowy.Spawn.{SpawnState, Taken, take}

-- The handles, none for an empty one, and how many states there are.
pub record Handles : Type 0 where
  pub states : List (Option ℕ)
  pub spawned : ℕ

abbrev pub state_at : Handles → ℕ → Option ℕ
state_at h i = get_or h.states i none

-- `spawn`, told whether the thread is the owner and whether the task has a frame.
unfoldable pub spawn : Bool → Bool → Handles → Result Handles
spawn on_owner has_task h =
    check on_owner
    >> throw_if (not has_task) invalid_argument
    >> ok (record { states = h.states ++ (some h.spawned ∷ []); spawned = h.spawned + 1 })

-- The constructor of a handle from another.
unfoldable pub move_from : ℕ → Handles → Handles
move_from i h = record h { states = set h.states i none ++ (state_at h i ∷ []) }

-- The move assignment of a shared pointer; the state of the left handle is let go.
unfoldable pub assign : ℕ → ℕ → Handles → Handles
assign i j h = record h { states = set (set h.states j none) i (state_at h j) }

-- `operator bool`.
unfoldable pub is_bound : ℕ → Handles → Bool
is_bound i h = not (is_none (state_at h i))

-- `detach`, and the destructor.
unfoldable pub detach : ℕ → Handles → Handles
detach i h = record h { states = set h.states i none }

-- `release`: the state, and the handle becomes empty.
abbrev pub released : ℕ → Option ℕ → Handles → Result (ℕ × Handles)
released i none h = err logic_error
released i (some k) h = ok (k, record h { states = set h.states i none })

unfoldable pub release : ℕ → Handles → Result (ℕ × Handles)
release i h = released i (state_at h i) h

-- `join` on a loop: the state that the waiter is bound to.
unfoldable pub join : ℕ → Handles → Result (ℕ × Handles)
unfolding release
join i h = release i h

-- `operator co_await`, told whether a loop runs on the thread.
unfoldable pub await : Bool → ℕ → Handles → Result (ℕ × Handles)
unfolding release
await on_loop i h = throw_if (not on_loop) logic_error >> release i h

-- `get` up to its wait.
unfoldable pub get : Bool → ℕ → Handles → Result (ℕ × Handles)
unfolding release
get on_loop i h = throw_if on_loop logic_error >> release i h

module _ {V : Type 0} where
  -- `ready`, given the states.
  abbrev pub ready_at : Option ℕ → (ℕ → SpawnState V) → Bool
  ready_at none states = false
  ready_at (some k) states = (states k).signal.value == 1

  unfoldable pub ready : ℕ → (ℕ → SpawnState V) → Handles → Bool
  ready i states h = ready_at (state_at h i) states

  -- `get` behind its wait, none while the state is not done.
  unfoldable pub got : SpawnState V → Option (Taken V)
  unfolding take
  got s = if s.done then some (take s) else none
