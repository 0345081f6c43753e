-- ===== src/Chain.antt =====
-- src/uring_ops.cpp, `submit`: several requests that go to the ring together, in one chain of links.
-- The entries are checked and linked, room is reserved for all, and then each result is stored at
-- its place until the last request has retired. `access::reserve` is that of src/uring.cpp.
pub mod Links
pub mod Collected
mod Tests
use snowy.Prelude.{
  ℕ, zero, suc, ◌+◌, ◌-◌, ◌<◌, Bool, true, false, not, ◌&&◌, ◌||◌, List, [], ◌∷◌, ltb, ◌==◌,
  if◌then◌else◌, length, set, replicate, is_empty,
}
use snowy.Fault.{
  Fault, invalid_argument, system_error, Result, ok, err, ◌>>=◌, ◌>>◌, throw_if, check, Code, count,
  failed,
}
use snowy.Registered.Ops.{
  Call, nop, readv, writev, fsync, fallocate, splice, read, write, read_fixed, write_fixed, Sqe,
}

-- `link`.
pub data Link : Type 0 where
  no_links soft hard : Link

-- The opcodes that a batch may have.
abbrev pub is_single_shot : Call → Bool
is_single_shot nop = true
is_single_shot (read fd region offset) = true
is_single_shot (write fd region offset) = true
is_single_shot readv = true
is_single_shot writev = true
is_single_shot (read_fixed fd region offset slot) = true
is_single_shot (write_fixed fd region offset slot) = true
is_single_shot fsync = true
is_single_shot fallocate = true
is_single_shot splice = true
is_single_shot _ = false

abbrev pub has_bad_flags : Sqe → Bool
has_bad_flags s = s.skip_success || s.buffer_select || s.io_link || s.io_hardlink

-- The flag that an entry gets unless it is the last.
abbrev pub linked : Link → Sqe → Sqe
linked no_links s = s
linked soft s = record s { io_link = true }
linked hard s = record s { io_hardlink = true }

-- The loop over the entries, which gives the entries to publish and whether one drains.
unfoldable pub build : Link → List Sqe → Result (List Sqe × Bool)
build order [] = ok ([], false)
build order (s ∷ rest) = do
  throw_if (not (is_single_shot s.call)) invalid_argument
  throw_if (has_bad_flags s) invalid_argument
  (sqes, drain) ← build order rest
  ok ((if is_empty rest then s else linked order s) ∷ sqes, s.io_drain || drain)

abbrev pub interrupted : ℕ
interrupted = 4

-- `while (io_uring_sq_space_left(&ring) < count)`. Each answer is what `io_uring_submit` returns and
-- the space that it leaves. The result is false when the answers have run out.
unfoldable pub make_room : ℕ → ℕ → List (Code × ℕ) → Result Bool
make_room wanted space [] = ok (not (ltb space wanted))
make_room wanted space ((count n, left) ∷ answers) =
    let rest = make_room wanted left answers in if ltb space wanted then rest else ok true
make_room wanted space ((failed e, left) ∷ answers) =
    let rest = make_room wanted left answers in
    if ltb space wanted then if e == interrupted then rest else err (system_error e) else ok true

-- What `reserve` reads and writes of the loop's driver.
pub record Watch : Type 0 where
  pub watching : Bool
  pub watch_waking : Bool
  pub wakes : ℕ

-- Before a chain that drains, the wake poll is made ready.
abbrev pub quieted : Bool → Watch → Watch
quieted drain w =
    if drain && w.watching && not w.watch_waking
    then record w { wakes = w.wakes + 1; watch_waking = true }
    else w

unfoldable pub reserve : Bool → ℕ → ℕ → ℕ → Bool → List (Code × ℕ) → Watch → Result (Bool × Watch)
reserve owner ring_entries space wanted drain answers w = do
  check owner
  throw_if (ltb ring_entries wanted) invalid_argument
  room ← make_room wanted space answers
  ok (room, if room then quieted drain w else w)

-- What the requests of a batch share. A result is the completion's `res`.
pub record Batch : Type 0 where
  pub pending : ℕ
  pub results : List Code
  pub done : Bool

unfoldable pub create : ℕ → Batch
create n = record { pending = n; results = replicate n (count 0); done = false }

-- A request's `result` and `retire`.
unfoldable pub answered : ℕ → Code → Batch → Batch
answered i code b = record b { results = set b.results i code }

unfoldable pub retire : Batch → Batch
retire b = record b { pending = b.pending - 1; done = if b.pending - 1 == 0 then true else b.done }

abbrev pub max_batch : ℕ
max_batch = 32768

-- What `submit` has come to before it waits: nothing to do, or a chain and the batch it reports to.
pub data Stage : Type 0 where
  finished : Stage
  waiting : List Sqe → Batch → Watch → Stage
  blocked : Stage

abbrev pub staged : ℕ → List Sqe → Bool × Watch → Stage
staged n sqes (true, w) = waiting sqes (create n) w
staged n sqes (false, w) = blocked

abbrev pub prepare : Bool → Link → List Sqe → ℕ → ℕ → List (Code × ℕ) → Watch → Result Stage
prepare owner order entries ring_entries space answers w = do
  throw_if (ltb max_batch (length entries)) invalid_argument
  (sqes, drain) ← build order entries
  r ← reserve owner ring_entries space (length entries) drain answers w
  ok (staged (length entries) sqes r)

-- `stopping` is the loop's stop or the token's, and 125 is `ECANCELED`.
unfoldable pub submit :
    Bool → Bool → Link → List Sqe → ℕ → ℕ → List (Code × ℕ) → Watch → Result Stage
submit owner stopping order entries ring_entries space answers w = do
  check owner
  throw_if stopping (system_error 125)
  if is_empty entries then ok finished else prepare owner order entries ring_entries space answers w
