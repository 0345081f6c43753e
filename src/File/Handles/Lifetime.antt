-- ===== src/File/Handles/Lifetime.antt =====
-- A program over the files of src/file.cpp: descriptors are closed once, and never under an operation.
use snowy.Prelude.{
  ℕ, zero, suc, ◌+◌, ◌≡◌, Bool, false, Option, none, some, List, [], ◌∷◌, ◌==◌, if◌then◌else◌,
  get_or, All,
}
use snowy.Fault.{Result, Code, count, failed}
use snowy.Task.Handles.{one, holds}
use snowy.File.Handles.{
  Mode, Flags, Files, fd_at, create, move_from, destroy, Launch, threw, returned, pending, release,
  start, open_flags,
}

-- A request in flight: its file, and the descriptor that it was submitted with.
abbrev pub Flight : Type 0
Flight = ℕ × Option ℕ

-- The files, and the requests that the system works on.
pub record World : Type 0 where
  pub files : Files
  pub flights : List Flight

-- `land` is the completion of a request, by its place.
pub data Step : Type 0 where
  make : Bool → List ℕ → Mode → Bool → (Flags → Code) → Option ℕ → Bool → Result (Unit {0}) → Step
  move : Bool → ℕ → Step
  drop land : ℕ → Step
  begin : Bool → Launch → ℕ → Step

-- How many requests of a file are in flight.
abbrev pub flights_of : ℕ → List Flight → ℕ
flights_of i [] = 0
flights_of i (p ∷ ps) = one (p.0 == i) + flights_of i ps

abbrev pub flight_at : ℕ → List Flight → Option Flight
flight_at n [] = none
flight_at zero (p ∷ ps) = some p
flight_at (suc n) (p ∷ ps) = flight_at n ps

abbrev pub without : ℕ → List Flight → List Flight
without n [] = []
without zero (p ∷ ps) = ps
without (suc n) (p ∷ ps) = p ∷ without n ps

abbrev pub begun : ℕ → World → Launch × Files → World
begun i w (threw e, fs) = record w { files = fs }
begun i w (returned, fs) = record w { files = fs }
begun i w (pending, fs) = record { files = fs; flights = (i, fd_at fs i) ∷ w.flights }

abbrev pub landed : ℕ → World → Option Flight → World
landed n w none = w
landed n w (some p) = record { files = release p.0 w.files; flights = without n w.flights }

abbrev pub dropped : World → Option Files → Option World
dropped w none = none
dropped w (some fs) = some (record w { files = fs })

-- The system answers with a descriptor that is not open.
abbrev pub is_used : Code → Files → Bool
is_used (count fd) fs = fs.is_open fd
is_used (failed e) fs = false

abbrev pub made :
    Bool
    → List ℕ
    → Mode
    → Bool
    → (Flags → Code)
    → Option ℕ
    → Bool
    → Result (Unit {0})
    → World
    → World
made on_owner path mode direct open_call stat regular attached w =
    if is_used (open_call (open_flags mode direct)) w.files then w else record w {
      files = (create on_owner path mode direct open_call stat regular attached w.files).1;
    }

-- A step, none where the program is ended.
abbrev pub step : Step → World → Option World
step (make on_owner path mode direct open_call stat regular attached) w =
    some (made on_owner path mode direct open_call stat regular attached w)
step (move on_owner i) w = some (record w { files = (move_from on_owner i w.files).1 })
step (drop i) w = dropped w (destroy i w.files)
step (land n) w = some (landed n w (flight_at n w.flights))
step (begin on_owner body i) w = some (begun i w (start on_owner body i w.files))

unfoldable pub run : List Step → Option World → Option World
unfolding create move_from destroy start
run [] o = o
run (s ∷ steps) none = none
run (s ∷ steps) (some w) = run steps (step s w)

abbrev pub idle : World
idle = record { files = record { fds = []; active = λ i. 0; is_open = λ fd. false }; flights = [] }

-- Every open descriptor has one file and every file an open one of its own; `active_` counts the requests in flight.
abbrev pub Owned : Files → Type 0
Owned fs = (k : ℕ) → holds k fs.fds ≡ one (fs.is_open k)

abbrev pub Counted : World → Type 0
Counted w = (i : ℕ) → w.files.active i ≡ flights_of i w.flights

-- A request is on the descriptor of its file.
abbrev pub Held : List (Option ℕ) → Flight → Type 0
Held fds (i, none) = ⊥
Held fds (i, some fd) = get_or fds i none ≡ some fd

abbrev pub Sound : World → Type 0
Sound w = Owned w.files × (Counted w × All (Held w.files.fds) w.flights)
