-- ===== src/File/Handles.antt =====
-- src/file.cpp and include/snowy/file.hpp: the files of a program on Linux, by number, with the descriptors
-- that the system has open; opening, moving, destroying, and the lifetime of operations.
pub mod Lifetime
pub mod Released
pub mod Made
pub mod Safe
mod Tests
use snowy.Prelude.{
  ℕ, zero, suc, ◌+◌, ◌-◌, Bool, true, false, not, ◌||◌, Option, none, some, List, [], ◌∷◌, ◌++◌,
  ltb, ◌==◌, if◌then◌else◌, is_none, length, get_or, set, min,
}
use snowy.Fault.{
  Fault, invalid_argument, logic_error, system_error, Result, err, ok, ◌>>◌, throw_if, Code, count,
  failed, check,
}
use snowy.File.{int_max, int64_max}

-- `file::mode`.
pub data Mode : Type 0 where
  read read_write create_new : Mode

-- What `open` is asked for: `O_RDWR` in place of `O_RDONLY`, `O_DIRECT`, and `O_CREAT | O_EXCL`.
pub record Flags : Type 0 where
  pub writes : Bool
  pub direct : Bool
  pub creates : Bool

unfoldable pub open_flags : Mode → Bool → Flags
open_flags read direct = record { writes = false; direct = direct; creates = false }
open_flags read_write direct = record { writes = true; direct = direct; creates = false }
open_flags create_new direct = record { writes = true; direct = direct; creates = true }

-- `fd_` and `active_` of each object, and the descriptors that the system has open. An object that was
-- destroyed has no descriptor.
pub record Files : Type 0 where
  pub fds : List (Option ℕ)
  pub active : ℕ → ℕ
  pub is_open : ℕ → Bool

abbrev pub fd_at : Files → ℕ → Option ℕ
fd_at fs i = get_or fs.fds i none

abbrev pub update {ℓ} : {A : Type ℓ} → (ℕ → A) → ℕ → A → ℕ → A
update f k v i = if k == i then v else f i

-- A path that is empty or has a null character.
unfoldable pub has_null : List ℕ → Bool
has_null [] = false
has_null (c ∷ cs) = c == 0 || has_null cs

unfoldable pub is_invalid_path : List ℕ → Bool
unfolding has_null
is_invalid_path path = length path == 0 || has_null path

-- The checks of the open descriptor: `fstat`, the type of the file, and `attach`.
unfoldable pub inspect : Option ℕ → Bool → Result (Unit {0}) → Result (Unit {0})
inspect (some e) regular attached = err (system_error e)
inspect none regular attached = throw_if (not regular) invalid_argument >> attached

abbrev pub opened : ℕ → Files → Files
opened fd fs = record {
  fds = fs.fds ++ (some fd ∷ []);
  active = update fs.active (length fs.fds) 0;
  is_open = update fs.is_open fd true;
}

-- The handler closes the descriptor, and there is no object.
abbrev pub inspected : ℕ → Files → Result (Unit {0}) → Result (Unit {0}) × Files
inspected fd fs (err e) =
    (err e, record fs { is_open = update (update fs.is_open fd true) fd false })
inspected fd fs (ok u) = (ok u, opened fd fs)

-- The constructor behind its checks, of which there is the result, and the call of `open`.
abbrev pub constructed :
    Result (Unit {0}) → Code → Result (Unit {0}) → Files → Result (Unit {0}) × Files
constructed (err e) answer r fs = (err e, fs)
constructed (ok u) (failed e) r fs = (err (system_error e), fs)
constructed (ok u) (count fd) r fs = inspected fd fs r

-- The constructor, with the answers of `open`, `fstat` and `attach`.
unfoldable pub create :
    Bool
    → List ℕ
    → Mode
    → Bool
    → (Flags → Code)
    → Option ℕ
    → Bool
    → Result (Unit {0})
    → Files
    → Result (Unit {0}) × Files
unfolding open_flags is_invalid_path inspect
create on_owner path mode direct open_call stat regular attached fs =
    constructed (check on_owner >> throw_if (is_invalid_path path) invalid_argument)
      (open_call (open_flags mode direct)) (inspect stat regular attached) fs

-- `file::check`.
unfoldable pub check_file : Bool → ℕ → Files → Result (Unit {0})
check_file on_owner i fs = check on_owner >> throw_if (is_none (fd_at fs i)) logic_error

abbrev pub moved : ℕ → Files → Files
moved i fs = record fs {
  fds = set fs.fds i none ++ (fd_at fs i ∷ []);
  active = update fs.active (length fs.fds) 0;
}

abbrev pub moved_behind : Result (Unit {0}) → ℕ → Files → Result (Unit {0}) × Files
moved_behind (err e) i fs = (err e, fs)
moved_behind (ok u) i fs = (ok u, moved i fs)

-- The constructor from another file.
unfoldable pub move_from : Bool → ℕ → Files → Result (Unit {0}) × Files
unfolding check_file
move_from on_owner i fs =
    moved_behind (check_file on_owner i fs >> throw_if (not (fs.active i == 0)) logic_error) i fs

-- `close`.
abbrev pub closed : ℕ → Option ℕ → Files → Files
closed i none fs = fs
closed i (some fd) fs = record fs { fds = set fs.fds i none; is_open = update fs.is_open fd false }

-- The destructor, none where it ends the program.
unfoldable pub destroy : ℕ → Files → Option Files
destroy i fs = if not (fs.active i == 0) then none else some (closed i (fd_at fs i) fs)

-- What an operation does behind its `use` up to its request: it throws, it returns, or it waits for the
-- request on a descriptor.
pub data Launch : Type 0 where
  threw : Fault → Launch
  returned : Launch
  pending : Launch

-- `ECANCELED`.
abbrev pub ecanceled : ℕ
ecanceled = 125

unfoldable pub transfer : Bool → ℕ → ℕ → Launch
transfer canceled size offset =
    if canceled
    then threw (system_error ecanceled)
    else if ltb int64_max offset || ltb (int64_max - offset) (min size int_max)
    then threw invalid_argument
    else if min size int_max == 0
    then returned
    else pending

unfoldable pub flush : Bool → Launch
flush canceled = if canceled then threw (system_error ecanceled) else pending

-- The constructor and the destructor of `use`.
abbrev pub reserve : ℕ → Files → Files
reserve i fs = record fs { active = update fs.active i (fs.active i + 1) }

abbrev pub release : ℕ → Files → Files
release i fs = record fs { active = update fs.active i (fs.active i - 1) }

abbrev pub launched : Launch → ℕ → Files → Launch × Files
launched (threw e) i fs = (threw e, release i (reserve i fs))
launched returned i fs = (returned, release i (reserve i fs))
launched pending i fs = (pending, reserve i fs)

-- The start of an operation: what is behind its `use` is given.
unfoldable pub start : Bool → Launch → ℕ → Files → Launch × Files
unfolding check_file
start on_owner body i fs = elim (check_file on_owner i fs) [
  | err e ↦ (threw e, fs)
  | ok u ↦ launched body i fs
]
