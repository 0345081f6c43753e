-- ===== src/Kqueue/Once.antt =====
-- A program of requests on the queue of src/kqueue.cpp: it starts requests, the kernel reports events of
-- filters, and requests that wait are canceled. A step whose calls have not returned leaves all as it was.
use snowy.Prelude.{
  ℕ, ◌+◌, ◌≡◌, refl, sym, ap, ap₂, ◌∙◌, subst, Bool, false, ◌||◌, Option, none, some, List, [], ◌∷◌,
  ◌==◌, ==_eq, Bool-cases, inl, inr, if◌then◌else◌, if_cases, arith,
}
use snowy.Kqueue.{
  Request, Driver, Answer, count, failed, Errno, Attempt, change_filter, complete, same_filter,
  submit, released, canceled_request, deleted, cancel, Event, handle, is_enoent,
}
use snowy.Kqueue.Single.{one, Absent, Keyed, Keyed-forget, filter_at}
use snowy.Kqueue.Effect.{
  total, Grown, Steady, submit-Grown, handle-Steady, released-Steady, complete-Grown,
}

-- The driver, and the requests that were started.
pub record World : Type 0 where
  pub driver : Driver
  pub started : List ℕ

pub data Step : Type 0 where
  start : Request → List Attempt → List Answer → Step
  fire : ℕ → Event → Step
  stop : ℕ → List Answer → Step

abbrev pub is_started : ℕ → List ℕ → Bool
is_started k [] = false
is_started k (i ∷ is) = i == k || is_started k is

-- Another request waits for the same direction of the descriptor.
abbrev pub is_taken : Request → List Request → Bool
is_taken r [] = false
is_taken r (f ∷ fs) = same_filter r f || is_taken r fs

abbrev pub begun : ℕ → Option Driver → World → World
begun i none w = w
begun i (some d) w = record { driver = d; started = i ∷ w.started }

abbrev pub after : Option Driver → World → World
after none w = w
after (some d) w = record w { driver = d }

abbrev pub fired : Option Request → Event → World → World
fired none event w = w
fired (some r) event w = after (handle r event w.driver) w

abbrev pub driver_of : Option (Option Errno × Driver) → Option Driver
driver_of none = none
driver_of (some (e, d)) = some d

unfoldable pub stopped : Option Request → List Answer → World → World
unfolding cancel
stopped none changes w = w
stopped (some r) changes w = after (driver_of (cancel r changes w.driver)) w

-- A request is started once, and on a direction on which none waits.
abbrev pub step : Step → World → World
step (start r answers changes) w =
    if is_started r.id w.started || is_taken r w.driver.filters
    then w
    else begun r.id (submit r answers changes w.driver) w
step (fire i event) w = fired (filter_at i w.driver.filters) event w
step (stop i changes) w = stopped (filter_at i w.driver.filters) changes w

unfoldable pub run : List Step → World → World
unfolding submit stopped
run [] w = w
run (s ∷ steps) w = run steps (step s w)

abbrev pub idle : World
idle = record { driver = record { filters = []; completed = [] }; started = [] }

-- No two filters have one key, and a request stands once among those armed and completed if it was started, and
-- never otherwise.
unfoldable pub IsSingle : World → Type 0
IsSingle w = Keyed w.driver.filters × ((k : ℕ) → total k w.driver ≡ one (is_started k w.started))

not_taken : (r : Request) (fs : List Request) → is_taken r fs ≡ false → Absent r fs
not_taken r [] e = tt
not_taken r (f ∷ fs) e = (ground arith, not_taken r fs (ground arith))

counted :
    (i k : ℕ) (is : List ℕ)
    → is_started i is ≡ false
    → one (is_started k is) + one (i == k) ≡ one (is_started k (i ∷ is))
counted i k is e = elim (Bool-cases (i == k)) [
  | inl p ↦
      ap₂ (λ a b. one a + one b) (subst (λ j. is_started j is ≡ false) (==_eq i k p) e) p
      ∙ sym (ap (λ b. one (b || is_started k is)) p)
  | inr p ↦
      ap (λ b. one (is_started k is) + one b) p
      ∙ omega arith
      ∙ sym (ap (λ b. one (b || is_started k is)) p)
]

begun-IsSingle :
    (i : ℕ) (o : Option Driver) (w : World)
    → is_started i w.started ≡ false
    → Grown i w.driver o
    → IsSingle w
    → IsSingle (begun i o w)
unfolding IsSingle
begun-IsSingle i none w e g h = h
begun-IsSingle i (some d) w e g h =
    (g.0, λ k. g.1 k ∙ ap (λ n. n + one (i == k)) (h.1 k) ∙ counted i k w.started e)

after-IsSingle :
    (o : Option Driver) (w : World) → Steady w.driver o → IsSingle w → IsSingle (after o w)
unfolding IsSingle
after-IsSingle none w s h = h
after-IsSingle (some d) w s h = (s.0, λ k. s.1 k ∙ h.1 k)

fired-IsSingle :
    (i : ℕ) (o : Option Request) (event : Event) (w : World)
    → filter_at i w.driver.filters ≡ o
    → IsSingle w
    → IsSingle (fired o event w)
unfolding IsSingle
fired-IsSingle i none event w e h = h
fired-IsSingle i (some r) event w e h =
    after-IsSingle (handle r event w.driver) w (handle-Steady i r event w.driver e h.0) h

canceled-Steady :
    (i : ℕ) (r : Request) (d : Driver)
    → filter_at i d.filters ≡ some r
    → Keyed d.filters
    → Steady d (some (complete (canceled_request r) (released r d)))
canceled-Steady i r d e h =
    released-Steady i r d (some (complete (canceled_request r) (released r d))) e h
      (complete-Grown (canceled_request r) (released r d) (Keyed-forget r d.filters h))

deleted-Steady :
    (i : ℕ) (r : Request) (change : Option Answer) (d : Driver)
    → filter_at i d.filters ≡ some r
    → Keyed d.filters
    → Steady d (driver_of (deleted r change d))
deleted-Steady i r none d e h = tt
deleted-Steady i r (some (count n)) d e h = canceled-Steady i r d e h
deleted-Steady i r (some (failed x)) d e h =
    if_cases (λ p. Steady d (driver_of (some p))) (is_enoent x)
      (none, complete (canceled_request r) (released r d)) (some x, d)
      (λ _. canceled-Steady i r d e h) (λ _. (h, λ k. refl))

stopped-IsSingle :
    (i : ℕ) (o : Option Request) (changes : List Answer) (w : World)
    → filter_at i w.driver.filters ≡ o
    → IsSingle w
    → IsSingle (stopped o changes w)
unfolding IsSingle stopped
stopped-IsSingle i none changes w e h = h
stopped-IsSingle i (some r) changes w e h =
    after-IsSingle (driver_of (cancel r changes w.driver)) w
      (deleted-Steady i r (change_filter changes) w.driver e h.0) h

IsSingle-Keyed : (w : World) → IsSingle w → Keyed w.driver.filters
unfolding IsSingle
IsSingle-Keyed w h = h.0

step-IsSingle : (s : Step) (w : World) → IsSingle w → IsSingle (step s w)
step-IsSingle (start r answers changes) w h =
    if_cases IsSingle (is_started r.id w.started || is_taken r w.driver.filters) w
      (begun r.id (submit r answers changes w.driver) w) (λ _. h)
      (λ e.
        begun-IsSingle r.id (submit r answers changes w.driver) w (ground arith)
          (submit-Grown r answers changes w.driver (not_taken r w.driver.filters (ground arith))
            (IsSingle-Keyed w h))
          h)
step-IsSingle (fire i event) w h = fired-IsSingle i (filter_at i w.driver.filters) event w refl h
step-IsSingle (stop i changes) w h =
    stopped-IsSingle i (filter_at i w.driver.filters) changes w refl h

-- Where no two armed requests have one descriptor and direction, each started request is armed or
-- completed, once and not both, and no other request is either, this stays so whatever requests a
-- program starts, whatever the kernel reports and whatever is canceled. A start of a request that was
-- started before or whose direction is taken is left out, and so is a step whose calls have not
-- returned.
pub run-IsSingle : (steps : List Step) (w : World) → IsSingle w → IsSingle (run steps w)
unfolding run
run-IsSingle [] w h = h
run-IsSingle (s ∷ steps) w h = run-IsSingle steps (step s w) (step-IsSingle s w h)

pub idle-IsSingle : IsSingle idle
unfolding IsSingle
idle-IsSingle = (tt, λ k. refl)
