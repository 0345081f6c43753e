-- ===== src/Syscalls.antt =====
-- src/uring_extra.cpp: the checks before a system call is submitted to the ring. A path and a buffer
-- are addresses, none for a null pointer. Each operation gives the submission entry that liburing
-- prepares, or none where it throws `invalid_argument`. Sums are `uint64_t`.
pub mod Vectors
mod Tests
use snowy.Prelude.{
  ℕ, zero, suc, ◌+◌, ◌-◌, ◌%◌, ◌^◌, Bool, true, false, not, ◌&&◌, ◌||◌, Option, none, some, List,
  [], ◌∷◌, ltb, ◌==◌, if◌then◌else◌, is_none, is_some, length,
}
use snowy.Fault.{Code, count, failed}
use snowy.File.{int_max, int64_max}

-- `iovec`.
pub record Vector : Type 0 where
  pub base : Option ℕ
  pub len : ℕ

-- A signed offset: -1, which takes the file's own position, another negative number, or a place.
pub data Position : Type 0 where
  own below : Position
  place : ℕ → Position

-- The operations, with the arguments of the system call.
pub data Sqe : Type 0 where
  unlink mkdir : ℕ → ℕ → Sqe
  renameat : ℕ → ℕ → ℕ → Sqe
  fsync : ℕ → Bool → Sqe
  fallocate : ℕ → ℕ → ℕ → ℕ → Sqe
  readv writev : ℕ → List Vector → ℕ → Sqe
  openat : ℕ → ℕ → ℕ → ℕ → Sqe
  statx : ℕ → ℕ → ℕ → ℕ → ℕ → Sqe
  spliced : ℕ → Position → ℕ → Position → ℕ → ℕ → Sqe
  waited : ℕ → ℕ → ℕ → ℕ → Sqe
  poll_add : ℕ → ℕ → Sqe

abbrev pub iov_max : ℕ
iov_max = 1024

-- `a - b` of 64 bits.
abbrev pub sub_wide : ℕ → ℕ → ℕ
sub_wide a b = (a + 2 ^ 64 - b) % 2 ^ 64

-- The loop over the vectors, with the running `total`.
unfoldable pub scan : ℕ → List Vector → Option ℕ
scan total [] = some total
scan total (v ∷ vs) =
    let rest = scan ((total + v.len) % 2 ^ 64) vs in
    if ltb (sub_wide int_max total) v.len || (is_none v.base && not (v.len == 0))
    then none
    else rest

abbrev pub fits_behind : ℕ → Option ℕ → Bool
fits_behind offset none = false
fits_behind offset (some total) = not (ltb (sub_wide int64_max offset) total)

unfoldable pub vectors : List Vector → ℕ → Bool
vectors data_at offset =
    if ltb iov_max (length data_at) || ltb int64_max offset
    then false
    else fits_behind offset (scan 0 data_at)

unfoldable pub rename : Option ℕ → Option ℕ → ℕ → Option Sqe
rename from to flags = elim from [
  | none ↦ none
  | some old ↦ elim to [ none ↦ none | some new ↦ some (renameat old new flags) ]
]

unfoldable pub remove : Option ℕ → ℕ → Option Sqe
remove name flags = elim name [ none ↦ none | some path ↦ some (unlink path flags) ]

unfoldable pub make_directory : Option ℕ → ℕ → Option Sqe
make_directory name mode = elim name [ none ↦ none | some path ↦ some (mkdir path mode) ]

unfoldable pub sync : ℕ → Bool → Option Sqe
sync file data_only = some (fsync file data_only)

unfoldable pub allocate_extent : ℕ → ℕ → ℕ → ℕ → Option Sqe
allocate_extent file offset length_of mode =
    if ltb int64_max offset || ltb (sub_wide int64_max offset) length_of
    then none
    else some (fallocate file mode offset length_of)

unfoldable pub read_vectors : ℕ → List Vector → ℕ → Option Sqe
read_vectors file data_at offset =
    if vectors data_at offset then some (readv file data_at offset) else none

unfoldable pub write_vectors : ℕ → List Vector → ℕ → Option Sqe
write_vectors file data_at offset =
    if vectors data_at offset then some (writev file data_at offset) else none

-- `close_on_exec` is `flags | O_CLOEXEC`, for a system's `O_CLOEXEC`.
module _ (close_on_exec : ℕ → ℕ) where
  unfoldable pub open_file : ℕ → Option ℕ → ℕ → ℕ → Option Sqe
  open_file dir name flags mode = elim name [
    | none ↦ none
    | some path ↦ some (openat dir path (close_on_exec flags) mode)
  ]

unfoldable pub file_status : ℕ → Option ℕ → ℕ → ℕ → ℕ → Option Sqe
file_status dir name out mask flags = elim name [
  | none ↦ none
  | some path ↦ some (statx dir path flags mask out)
]

abbrev pub is_below : Position → Bool
is_below own = false
is_below below = true
is_below (place n) = false

unfoldable pub splice : ℕ → Position → ℕ → Position → ℕ → ℕ → Option Sqe
splice source source_offset target target_offset size flags =
    if ltb int_max size || is_below source_offset || is_below target_offset
    then none
    else some (spliced source source_offset target target_offset size flags)

-- Where liburing has it.
unfoldable pub wait_for : ℕ → ℕ → ℕ → ℕ → Option Sqe
wait_for kind id out options = some (waited kind id out options)

unfoldable pub poll_file : ℕ → ℕ → Option Sqe
poll_file file events = some (poll_add file events)

-- The result of `open_op`: an error, or the descriptor that the operation owns.
pub record OpenOp : Type 0 where
  pub error : ℕ
  pub accepted : Option ℕ

unfoldable pub opened : Code → OpenOp → OpenOp
opened (count fd) o = record o { accepted = some fd }
opened (failed e) o = record o { error = e }
