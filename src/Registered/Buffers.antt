-- ===== src/Registered/Buffers.antt =====
-- The table of registered buffers (`buffers`), whose regions are kept beside the kernel's copy.
use snowy.Prelude.{
  ℕ, Bool, true, false, ◌&&◌, ◌||◌, not, Option, none, some, List, [], ◌∷◌, ◌++◌, ltb, ◌==◌,
  if◌then◌else◌, is_none, same, length, get_or, take, drop, replicate, is_empty,
}
use snowy.File.{int_max}
use snowy.Syscalls.{Vector, sub_wide}
use snowy.Fault.{
  invalid_argument, out_of_range, logic_error, Result, ok, ◌>>=◌, ◌>>◌, throw_if, check, Code,
  count, failed, verify,
}
use snowy.Registered.Ops.{with_fixed_file, transfer, Op, Table, create}
use snowy.Registered.Files.{Files, check_index}

pub record Buffers : Type 0 where
  pub table : Table
  pub regions : List Vector

abbrev pub max_buffers : ℕ
max_buffers = 65536

abbrev pub vacant : Vector
vacant = record { base = none; len = 0 }

abbrev pub holding : ℕ → List Vector → Buffers
holding ring regions = record { table = record { ring = ring; active = 0 }; regions = regions }

-- A region that may be registered: neither field is zero.
abbrev pub is_region : Vector → Bool
is_region v = not (is_none v.base || v.len == 0 || ltb int_max v.len)

-- One that may replace another: both fields are zero, or neither.
abbrev pub is_slot : Vector → Bool
is_slot v = same (is_none v.base) (v.len == 0) && not (ltb int_max v.len)

-- `for (auto region : regions) if (...) throw ...`
abbrev pub every : (Vector → Bool) → List Vector → Bool
every p [] = true
every p (v ∷ vs) = p v && every p vs

unfoldable pub register : ℕ → List Vector → Code → Result Buffers
register ring regions code = do
  throw_if (is_empty regions || ltb max_buffers (length regions)) invalid_argument
  throw_if (not (every is_region regions)) invalid_argument
  _ ← verify code
  ok (holding ring regions)

unfoldable pub reserve_slots : ℕ → ℕ → Code → Result Buffers
reserve_slots ring slots code = do
  throw_if (slots == 0 || ltb max_buffers slots) invalid_argument
  _ ← verify code
  ok (holding ring (replicate slots vacant))

-- The constructor that clones another ring's registrations, where liburing can.
unfoldable pub clone : Bool → ℕ → Buffers → Code → Result Buffers
clone owner ring source code = do check owner; _ ← verify code; ok (holding ring source.regions)

unfoldable pub may_close : Buffers → Code → Bool
may_close b (count n) = b.table.active == 0
may_close b (failed e) = false

-- `std::copy_n(from, n, to)`, `to` being the regions from the offset on.
abbrev pub copy_n : List Vector → ℕ → List Vector → List Vector
copy_n from n to = take n from ++ drop n to

-- What stands behind the kernel's answer: `verify`, and the copy of what was updated.
abbrev pub replaced : Buffers → ℕ → List Vector → Code → Result (ℕ × Buffers)
replaced b offset regions (count n) =
    ok (n, record b { regions = take offset b.regions ++ copy_n regions n (drop offset b.regions) })
replaced b offset regions (failed e) = verify (failed e) >>= λ n. ok (n, b)

unfoldable pub update : Bool → Buffers → ℕ → List Vector → Code → Result (ℕ × Buffers)
update owner b offset regions code = do
  check owner
  throw_if (not (b.table.active == 0)) logic_error
  throw_if
      (ltb (length b.regions) offset || ltb (sub_wide (length b.regions) offset) (length regions))
      out_of_range
  throw_if (not (every is_slot regions)) invalid_argument
  if is_empty regions then ok (0, b) else replaced b offset regions code

unfoldable pub at_slot : Bool → Buffers → ℕ → Result Vector
at_slot owner b index = do
  check owner
  throw_if (not (ltb index (length b.regions))) out_of_range
  let region = get_or b.regions index vacant
  throw_if (is_none region.base) logic_error
  ok region

-- `files::read` and `files::write` with a slot of each table.
unfoldable pub transfer_slot :
    Bool → Files → ℕ → Buffers → ℕ → ℕ → Bool → Result (Op × Option Table × Option Table)
transfer_slot owner f index b slot offset is_write = do
  check_index owner f index
  region ← at_slot owner b slot
  sqe ← transfer index region offset is_write (some slot)
  create owner f.table.ring (with_fixed_file sqe) (some f.table) (some b.table)
