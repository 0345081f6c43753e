-- ===== src/File/Handles/Safe.antt =====
-- A descriptor of src/file.cpp is closed once, and never while a request is in flight on it.
use snowy.Prelude.{
  ℕ, ◌+◌, ◌<◌, ◌≡◌, refl, sym, ap, ◌∙◌, subst, Bool, true, false, not, Option, none, some, List, [],
  ◌∷◌, ◌==◌, ==_eq, ==_refl, if◌then◌else◌, is_none, All, arith,
}
use snowy.Fault.{err, ok, throw_if, logic_error}
use snowy.Task.Handles.{one, hit-le-holds, one_positive}
use snowy.File.Handles.{
  Files, fd_at, closed, destroy, Launch, threw, returned, pending, launched, start,
}
use snowy.File.Handles.Lifetime.{
  Flight, World, Step, make, move, drop, land, begin, flight_at, begun, landed, dropped, step, run,
  idle, Owned, Held, Sound,
}
use snowy.File.Handles.Released.{
  Held-set, Held-without, flights_of-without, update-one, update-less, release-reserve,
  closed-Owned,
}
use snowy.File.Handles.Made.{made-Sound, move_from-Sound}

-- A program that was not ended is sound.
abbrev pub IsSafe : Option World → Type 0
IsSafe none = Unit
IsSafe (some w) = Sound w

destroy-IsSafe : (i : ℕ) (w : World) → Sound w → IsSafe (dropped w (destroy i w.files))
unfolding destroy
destroy-IsSafe i w h = tried (w.files.active i == 0) (fd_at w.files i) refl refl
  where
    tried :
        (b : Bool) (x : Option ℕ)
        → w.files.active i == 0 ≡ b
        → fd_at w.files i ≡ x
        → IsSafe (dropped w (if not b then none else some (closed i x w.files)))
    tried false x a e = tt
    tried true none a e = h
    tried true (some fd) a e = (
      closed-Owned w.files i fd e h.0,
      (
        h.1.0,
        Held-set w.files.fds i w.flights (sym (h.1.0 i) ∙ ==_eq (w.files.active i) 0 a) h.1.1,
      ),
    )

launched-Sound :
    (body : Launch) (i fd : ℕ) (w : World)
    → fd_at w.files i ≡ some fd
    → Sound w
    → Sound (begun i w (launched body i w.files))
launched-Sound (threw e) i fd w f h = (h.0, (λ k. release-reserve w.files i k ∙ h.1.0 k, h.1.1))
launched-Sound returned i fd w f h = (h.0, (λ k. release-reserve w.files i k ∙ h.1.0 k, h.1.1))
launched-Sound pending i fd w f h = (
  h.0,
  (
    λ k. omega (arith, h.1.0 k, update-one w.files.active i k (w.files.active i + 1) (omega arith)),
    (subst (λ x. Held w.files.fds (i, x)) (sym f) f, h.1.1),
  ),
)

start-Sound :
    (on_owner : Bool) (body : Launch) (i : ℕ) (w : World)
    → Sound w
    → Sound (begun i w (start on_owner body i w.files))
unfolding start
start-Sound false body i w h = h
start-Sound true body i w h = tried (fd_at w.files i) refl
  where
    tried :
        (x : Option ℕ)
        → fd_at w.files i ≡ x
        → Sound (
            begun i w (elim (throw_if (is_none x) logic_error) [
              | err e ↦ (threw e, w.files)
              | ok u ↦ launched body i w.files
            ]))
    tried none e = h
    tried (some fd) e = launched-Sound body i fd w e h

landed-Sound :
    (n : ℕ) (o : Option Flight) (w : World)
    → flight_at n w.flights ≡ o
    → Sound w
    → Sound (landed n w o)
landed-Sound n none w e h = h
landed-Sound n (some p) w e h = (
  h.0,
  (
    λ k. omega (
      arith,
      h.1.0 k,
      update-less w.files.active p.0 k in_flight,
      flights_of-without n p w.flights k e,
    ),
    Held-without w.files.fds n w.flights h.1.1,
  ),
)
  where
    in_flight : 0 < w.files.active p.0
    in_flight =
        omega (arith, h.1.0 p.0, flights_of-without n p w.flights p.0 e, ap one (==_refl p.0))

step-IsSafe : (s : Step) (w : World) → Sound w → IsSafe (step s w)
step-IsSafe (make on_owner path mode direct open_call stat regular attached) w h =
    made-Sound on_owner path mode direct open_call stat regular attached w h
step-IsSafe (move on_owner i) w h = move_from-Sound on_owner i w h
step-IsSafe (drop i) w h = destroy-IsSafe i w h
step-IsSafe (land n) w h = landed-Sound n (flight_at n w.flights) w refl h
step-IsSafe (begin on_owner body i) w h = start-Sound on_owner body i w h

run-IsSafe : (steps : List Step) (o : Option World) → IsSafe o → IsSafe (run steps o)
unfolding run
run-IsSafe [] o h = h
run-IsSafe (s ∷ steps) none h = h
run-IsSafe (s ∷ steps) (some w) h = run-IsSafe steps (step s w) (step-IsSafe s w h)

-- Requests that a system works on while their descriptor is open.
abbrev pub Flies : Files → Flight → Type 0
Flies fs (i, none) = ⊥
Flies fs (i, some fd) = (fd_at fs i ≡ some fd) × (fs.is_open fd ≡ true)

Held-Flies : (fs : Files) (ps : List Flight) → Owned fs → All (Held fs.fds) ps → All (Flies fs) ps
Held-Flies fs [] o h = tt
Held-Flies fs ((i, none) ∷ ps) o h = absurd h.0
Held-Flies fs ((i, some fd) ∷ ps) o h = (
  (h.0, one_positive (fs.is_open fd) (omega (arith, o fd, hit-le-holds fd fs.fds i h.0))),
  Held-Flies fs ps o h.1,
)

-- Every open descriptor has one file, and each request in flight is on the open descriptor of its file.
unfoldable pub IsKept : Option World → Type 0
IsKept none = Unit
IsKept (some w) = Owned w.files × All (Flies w.files) w.flights

kept : (o : Option World) → IsSafe o → IsKept o
unfolding IsKept
kept none h = tt
kept (some w) h = (h.0, Held-Flies w.files w.flights h.0 h.1.1)

idle-IsSafe : IsSafe (some idle)
idle-IsSafe = (λ k. refl, (λ i. refl, tt))

-- Whatever files a program opens, moves and destroys, and whatever operations it starts on them, if the system opens
-- no descriptor that is open and the program is not ended by the destructor of a busy file, then each descriptor
-- that is open belongs to exactly one file, a file has no descriptor that is closed, and each request in flight
-- is on the open descriptor of the file that it was started on.
pub run-IsKept : (steps : List Step) → IsKept (run steps (some idle))
run-IsKept steps = kept (run steps (some idle)) (run-IsSafe steps (some idle) idle-IsSafe)
