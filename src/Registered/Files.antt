-- ===== src/Registered/Files.antt =====
-- The table of registered files (`files`). Descriptors, paths and flags are numbers; what the kernel
-- returns is an argument of the calls.
use snowy.Prelude.{ℕ, Bool, true, false, ◌||◌, not, Option, none, some, ltb, ◌==◌, if◌then◌else◌}
use snowy.File.{int_max}
use snowy.Syscalls.{Vector, sub_wide}
use snowy.Fault.{
  invalid_argument, out_of_range, logic_error, Result, ok, err, ◌>>=◌, ◌>>◌, throw_if, check, Code,
  count, failed, verify,
}
use snowy.Registered.Ops.{
  openat_direct, close_direct, socket_direct, accept_direct, recv, send, Sqe, prepared,
  with_fixed_file, bounds, transfer, Op, Table, create,
}

pub record Files : Type 0 where
  pub table : Table
  pub size : ℕ

abbrev pub opened : ℕ → ℕ → Files
opened ring size = record { table = record { ring = ring; active = 0 }; size = size }

-- The constructor from descriptors, of which only the number matters, and that of empty slots.
unfoldable pub register : ℕ → ℕ → Code → Result Files
register ring fds code = do
  throw_if (fds == 0 || ltb int_max fds) invalid_argument
  _ ← verify code
  ok (opened ring fds)

unfoldable pub reserve_slots : ℕ → ℕ → Code → Result Files
reserve_slots ring slots code = do
  throw_if (slots == 0 || ltb int_max slots) invalid_argument
  _ ← verify code
  ok (opened ring slots)

-- The destructor may run: otherwise it calls `std::terminate`.
unfoldable pub may_close : Files → Code → Bool
may_close f (count n) = f.table.active == 0
may_close f (failed e) = false

-- `update`, with the kernel's answer to a call that is made.
unfoldable pub update : Bool → Files → ℕ → ℕ → Code → Result ℕ
update owner f offset fds code = do
  check owner
  throw_if (not (f.table.active == 0)) logic_error
  throw_if (ltb f.size offset || ltb (sub_wide f.size offset) fds) out_of_range
  if fds == 0 then ok 0 else verify code

-- `files::check`.
unfoldable pub check_index : Bool → Files → ℕ → Result (Unit {0})
check_index owner f index = do check owner; throw_if (not (ltb index f.size)) out_of_range

-- `return {loop_, sqe, token, this};`
abbrev pub start : Bool → Files → Sqe → Result (Op × Option Table × Option Table)
start owner f sqe = create owner f.table.ring sqe (some f.table) none

unfoldable pub open_slot :
    Bool → Files → ℕ → Option ℕ → ℕ → ℕ → Result (Op × Option Table × Option Table)
open_slot owner f index name flags mode = do
  check_index owner f index
  path ← elim name [ none ↦ err invalid_argument | some p ↦ ok p ]
  start owner f (prepared (openat_direct path flags mode index))

unfoldable pub close_slot : Bool → Files → ℕ → Result (Op × Option Table × Option Table)
close_slot owner f index = do
  check_index owner f index
  start owner f (prepared (close_direct index))

unfoldable pub make_socket :
    Bool → Files → ℕ → ℕ → ℕ → ℕ → Result (Op × Option Table × Option Table)
make_socket owner f index domain kind protocol = do
  check_index owner f index
  start owner f (prepared (socket_direct domain kind protocol index))

-- The listener's loop is given by its ring.
unfoldable pub accept_slot : Bool → Files → ℕ → ℕ → ℕ → Result (Op × Option Table × Option Table)
accept_slot owner f index listener listener_ring = do
  check_index owner f index
  throw_if (not (listener_ring == f.table.ring)) invalid_argument
  start owner f (prepared (accept_direct listener index))

unfoldable pub receive_slot :
    Bool → Files → ℕ → Vector → ℕ → Result (Op × Option Table × Option Table)
receive_slot owner f index region flags = do
  check_index owner f index
  bounds region.len 0
  start owner f (with_fixed_file (prepared (recv index region flags)))

-- `no_signal` is `flags | MSG_NOSIGNAL`, for a system's `MSG_NOSIGNAL`.
module _ (no_signal : ℕ → ℕ) where
  unfoldable pub send_slot :
      Bool → Files → ℕ → Vector → ℕ → Result (Op × Option Table × Option Table)
  send_slot owner f index region flags = do
    check_index owner f index
    bounds region.len 0
    start owner f (with_fixed_file (prepared (send index region (no_signal flags))))

unfoldable pub read_slot : Bool → Files → ℕ → Vector → ℕ → Result (Op × Option Table × Option Table)
read_slot owner f index region offset = do
  check_index owner f index
  sqe ← transfer index region offset false none
  start owner f (with_fixed_file sqe)

unfoldable pub write_slot :
    Bool → Files → ℕ → Vector → ℕ → Result (Op × Option Table × Option Table)
write_slot owner f index region offset = do
  check_index owner f index
  sqe ← transfer index region offset true none
  start owner f (with_fixed_file sqe)
