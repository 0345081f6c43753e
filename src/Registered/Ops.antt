-- ===== src/Registered/Ops.antt =====
-- The checks, submission entries and the life of an operation (`op`). A submission entry is the call
-- of liburing that prepares it, with its arguments, and the flags that the source reads or sets.
use snowy.Prelude.{
  ℕ, ◌+◌, ◌-◌, Bool, true, false, not, ◌||◌, Option, none, some, ltb, ◌==◌, if◌then◌else◌,
}
use snowy.File.{int_max, int64_max}
use snowy.Syscalls.{Vector, sub_wide}
use snowy.Fault.{invalid_argument, Result, ok, ◌>>◌, throw_if, check, Code, count, failed}

-- Which call of liburing made the entry. `other` is an entry of the caller's with another opcode.
pub data Call : Type 0 where
  nop readv writev fsync fallocate splice : Call
  read write : ℕ → Vector → ℕ → Call
  read_fixed write_fixed : ℕ → Vector → ℕ → ℕ → Call
  openat_direct : ℕ → ℕ → ℕ → ℕ → Call
  close_direct : ℕ → Call
  socket_direct : ℕ → ℕ → ℕ → ℕ → Call
  accept_direct : ℕ → ℕ → Call
  recv : ℕ → Vector → ℕ → Call
  send send_zc : ℕ → Vector → ℕ → Call
  other : ℕ → Call

pub record Sqe : Type 0 where
  pub call : Call
  pub fixed_file : Bool
  pub skip_success : Bool
  pub buffer_select : Bool
  pub io_link : Bool
  pub io_hardlink : Bool
  pub io_drain : Bool

-- A preparing call leaves all flags clear.
abbrev pub prepared : Call → Sqe
prepared c = record {
  call = c;
  fixed_file = false;
  skip_success = false;
  buffer_select = false;
  io_link = false;
  io_hardlink = false;
  io_drain = false;
}

-- `sqe.flags |= IOSQE_FIXED_FILE`.
abbrev pub with_fixed_file : Sqe → Sqe
with_fixed_file s = record s { fixed_file = true }

unfoldable pub bounds : ℕ → ℕ → Result (Unit {0})
bounds size offset =
    throw_if (ltb int_max size || ltb int64_max offset || ltb (sub_wide int64_max offset) size)
      invalid_argument

abbrev pub transfer_call : ℕ → Vector → ℕ → Bool → Option ℕ → Call
transfer_call fd region offset true (some slot) = write_fixed fd region offset slot
transfer_call fd region offset false (some slot) = read_fixed fd region offset slot
transfer_call fd region offset true none = write fd region offset
transfer_call fd region offset false none = read fd region offset

-- `slot` is none for -1.
unfoldable pub transfer : ℕ → Vector → ℕ → Bool → Option ℕ → Result Sqe
transfer fd region offset is_write slot = do
  bounds region.len offset
  ok (prepared (transfer_call fd region offset is_write slot))

-- `op`: which tables it pins, and its result. A table is a counter of references here.
pub record Op : Type 0 where
  pub sqe : Sqe
  pub files : Bool
  pub buffers : Bool
  pub active : Bool
  pub error : ℕ
  pub bytes : ℕ

-- A table as the constructor of `op` sees it.
pub record Table : Type 0 where
  pub ring : ℕ
  pub active : ℕ

abbrev pub is_foreign : ℕ → Option Table → Bool
is_foreign ring none = false
is_foreign ring (some t) = not (t.ring == ring)

abbrev pub retain : Option Table → Option Table
retain none = none
retain (some t) = some (record t { active = t.active + 1 })

abbrev pub given : Option Table → Bool
given none = false
given (some t) = true

unfoldable pub create :
    Bool → ℕ → Sqe → Option Table → Option Table → Result (Op × Option Table × Option Table)
create owner ring sqe f b = do
  check owner
  throw_if (sqe.skip_success || sqe.io_link || sqe.io_hardlink) invalid_argument
  throw_if (is_foreign ring f || is_foreign ring b) invalid_argument
  ok (
    record { sqe = sqe; files = given f; buffers = given b; active = false; error = 0; bytes = 0 },
    retain f,
    retain b,
  )

-- The completion handler. `notification` is `IORING_CQE_F_NOTIF`.
unfoldable pub result : Op → Code → Bool → Op
result o (count n) notification = if notification then o else record o { bytes = n }
result o (failed e) notification = if notification then o else record o { error = e }

abbrev pub release : Bool → Table → Table
release pinned t = record t { active = if pinned then t.active - 1 else t.active }

-- The destructor, on the tables that the operation was given. None is `std::terminate`.
unfoldable pub destroy : Op → Table → Table → Option (Table × Table)
destroy o f b = if o.active then none else some (release o.files f, release o.buffers b)

-- `nop`, `read` and `write` on an ordinary descriptor.
unfoldable pub nop_entry : Sqe
nop_entry = prepared nop

unfoldable pub read_entry : ℕ → Vector → ℕ → Result Sqe
read_entry fd region offset = transfer fd region offset false none

unfoldable pub write_entry : ℕ → Vector → ℕ → Result Sqe
write_entry fd region offset = transfer fd region offset true none
