-- ===== src/Direction.antt =====
-- One direction of a socket, reading or writing, with the requests that use it: `detail::io` of
-- include/snowy/detail/io.hpp, its `await_suspend` and `complete` in src/loop.cpp, and the calls of
-- src/socket.cpp that ask whether the direction is in use. A request is known by a number.
pub mod Exclusive
mod Tests
use snowy.Prelude.{
  ℕ, Bool, true, false, not, ◌&&◌, ◌||◌, List, [], ◌∷◌, ◌==◌, if◌then◌else◌, is_empty,
}

-- The flag of the direction; the requests that have reserved it, and those that stand in the loop's
-- list of pending requests.
pub record Direction : Type 0 where
  pub busy : Bool
  pub reserved : List ℕ
  pub linked : List ℕ

pub data Suspended : Type 0 where
  -- It throws `logic_error`; it is canceled and goes on; it is pending; the submission throws.
  in_use declined pending threw : Suspended

unfoldable pub create : Direction
create = record { busy = false; reserved = []; linked = [] }

abbrev pub contains : ℕ → List ℕ → Bool
contains id [] = false
contains id (j ∷ js) = j == id || contains id js

abbrev pub without : ℕ → List ℕ → List ℕ
without id [] = []
without id (j ∷ js) = let rest = without id js in if j == id then rest else j ∷ rest

-- `await_suspend`: `armed` is what the loop's `arm` gives, and `accepts` says that the submission
-- does not throw. One that throws is unlinked, but keeps the direction until it is destroyed.
unfoldable pub await_suspend : Direction → ℕ → Bool → Bool → Suspended × Direction
await_suspend d id armed accepts =
    let held = record d { busy = true; reserved = id ∷ d.reserved } in
    if d.busy
    then (in_use, d)
    else if not armed
    then (declined, d)
    else if accepts
    then (pending, record held { linked = id ∷ d.linked })
    else (threw, held)

-- `complete`: the request leaves the loop's list.
unfoldable pub complete : Direction → ℕ → Direction
complete d id = record d { linked = without id d.linked }

-- `await_resume`, and the destructor of a request that was not resumed.
unfoldable pub give_back : Direction → ℕ → Direction
give_back d id =
    if contains id d.reserved
    then record d { busy = false; reserved = without id d.reserved }
    else d

-- Moving the socket, and `shutdown` for the direction of writing, are refused while it is in use.
unfoldable pub may_move : Direction → Direction → Bool
may_move reading writing = not (reading.busy || writing.busy)

unfoldable pub may_shut_down : Direction → Bool
may_shut_down writing = not writing.busy
