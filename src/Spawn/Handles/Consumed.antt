-- ===== src/Spawn/Handles/Consumed.antt =====
-- Each result of include/snowy/spawn.hpp has one consumer at most.
use snowy.Prelude.{
  ℕ, zero, suc, ◌+◌, ◌<◌, ◌≤◌, ◌≡◌, refl, ap, Bool, true, false, Option, none, some, List, [], ◌∷◌,
  ltb, ◌==◌, if◌then◌else◌, if_cases, length, set, length-set, arith,
}
use snowy.Fault.{Result, err, ok}
use snowy.Task.Handles.{one, hit, holds, holds-append, holds-set, some_below}
use snowy.Spawn.Handles.{
  Handles, state_at, spawn, move_from, assign, detach, released, release, join, await, get,
}

-- The handles, and the states that a consumer took, the last first.
pub record World : Type 0 where
  pub handles : Handles
  pub consumed : List ℕ

pub data Step : Type 0 where
  spawns : Bool → Bool → Step
  moves detaches joins : ℕ → Step
  assigns : ℕ → ℕ → Step
  awaits gets : Bool → ℕ → Step

abbrev pub spawned : World → Result Handles → World
spawned w (err e) = w
spawned w (ok h) = record w { handles = h }

abbrev pub consumes : World → Result (ℕ × Handles) → World
consumes w (err e) = w
consumes w (ok (k, h)) = record { handles = h; consumed = k ∷ w.consumed }

abbrev exists_at : ℕ → World → Bool
exists_at i w = ltb i (length w.handles.states)

-- Handles that do not exist are left alone.
abbrev pub step : Step → World → World
step (spawns on_owner has_task) w = spawned w (spawn on_owner has_task w.handles)
step (moves i) w = if exists_at i w then record w { handles = move_from i w.handles } else w
step (detaches i) w = record w { handles = detach i w.handles }
step (joins i) w = consumes w (join i w.handles)
step (assigns i j) w =
    if exists_at i w
    then if exists_at j w then record w { handles = assign i j w.handles } else w
    else w
step (awaits on_loop i) w = consumes w (await on_loop i w.handles)
step (gets on_loop i) w = consumes w (get on_loop i w.handles)

unfoldable pub run : List Step → World → World
unfolding spawn move_from assign detach join await get
run [] w = w
run (s ∷ steps) w = run steps (step s w)

abbrev pub idle : World
idle = record { handles = record { states = []; spawned = 0 }; consumed = [] }

-- How often a state was taken.
abbrev pub taken : ℕ → List ℕ → ℕ
taken k [] = 0
taken k (i ∷ is) = one (i == k) + taken k is

-- A state that was spawned has one handle or one consumer at most, and no other has any.
unfoldable pub IsOnce : World → Type 0
IsOnce w = (k : ℕ) → holds k w.handles.states + taken k w.consumed ≤ one (ltb k w.handles.spawned)

le_set : (k : ℕ) (hs : List (Option ℕ)) (i : ℕ) → holds k (set hs i none) ≤ holds k hs
le_set k [] i = omega arith
le_set k (x ∷ xs) zero = omega arith
le_set k (x ∷ xs) (suc i) = omega (arith, le_set k xs i)

one_more : (k n : ℕ) → one (ltb k (n + 1)) ≡ one (ltb k n) + one (n == k)
one_more k n = ground arith

spawn-IsOnce :
    (on_owner has_task : Bool) (w : World)
    → IsOnce w
    → IsOnce (spawned w (spawn on_owner has_task w.handles))
unfolding IsOnce spawn
spawn-IsOnce false has_task w h k = h k
spawn-IsOnce true false w h k = h k
spawn-IsOnce true true w h k = omega (
  arith,
  h k,
  holds-append k w.handles.states (some w.handles.spawned ∷ []),
  one_more k w.handles.spawned,
)

move_from-IsOnce :
    (i : ℕ) (w : World)
    → i < length w.handles.states
    → IsOnce w
    → IsOnce (record w { handles = move_from i w.handles })
unfolding IsOnce move_from
move_from-IsOnce i w l h k = omega (
  arith,
  h k,
  holds-append k (set w.handles.states i none) (state_at w.handles i ∷ []),
  holds-set k w.handles.states i none l,
)

assign-IsOnce :
    (i j : ℕ) (w : World)
    → i < length w.handles.states
    → j < length w.handles.states
    → IsOnce w
    → IsOnce (record w { handles = assign i j w.handles })
unfolding IsOnce assign
assign-IsOnce i j w l m h k = omega (
  arith,
  h k,
  holds-set k w.handles.states j none m,
  holds-set k (set w.handles.states j none) i (state_at w.handles j)
      (omega (arith, l, length-set w.handles.states j none)),
)

detach-IsOnce : (i : ℕ) (w : World) → IsOnce w → IsOnce (record w { handles = detach i w.handles })
unfolding IsOnce detach
detach-IsOnce i w h k = omega (arith, h k, le_set k w.handles.states i)

release-IsOnce : (i : ℕ) (w : World) → IsOnce w → IsOnce (consumes w (release i w.handles))
unfolding IsOnce release
release-IsOnce i w h = taken_from (state_at w.handles i) refl
  where
    taken_from :
        (x : Option ℕ) → state_at w.handles i ≡ x → IsOnce (consumes w (released i x w.handles))
    taken_from none e = h
    taken_from (some j) e = λ k. omega (
      arith,
      h k,
      holds-set k w.handles.states i none (some_below w.handles.states i j e),
      ap (hit k) e,
    )

step-IsOnce : (s : Step) (w : World) → IsOnce w → IsOnce (step s w)
unfolding join await get
step-IsOnce (spawns on_owner has_task) w h = spawn-IsOnce on_owner has_task w h
step-IsOnce (moves i) w h =
    if_cases IsOnce (exists_at i w) (record w { handles = move_from i w.handles }) w
      (λ e. move_from-IsOnce i w (ground (arith, e)) h) (λ _. h)
step-IsOnce (detaches i) w h = detach-IsOnce i w h
step-IsOnce (joins i) w h = release-IsOnce i w h
step-IsOnce (assigns i j) w h =
    if_cases IsOnce (exists_at i w)
      (if exists_at j w then record w { handles = assign i j w.handles } else w) w
      (λ e.
        if_cases IsOnce (exists_at j w) (record w { handles = assign i j w.handles }) w
          (λ d. assign-IsOnce i j w (ground (arith, e)) (ground (arith, d)) h) (λ _. h))
      (λ _. h)
step-IsOnce (awaits false i) w h = h
step-IsOnce (awaits true i) w h = release-IsOnce i w h
step-IsOnce (gets true i) w h = h
step-IsOnce (gets false i) w h = release-IsOnce i w h

-- Where every state that was spawned is referred to by one handle and no consumer, by one consumer
-- and no handle, or by none, and no other state is referred to, this stays so whatever a program does
-- with its join handles, those that do not exist being left alone.
pub run-IsOnce : (steps : List Step) (w : World) → IsOnce w → IsOnce (run steps w)
unfolding run
run-IsOnce [] w h = h
run-IsOnce (s ∷ steps) w h = run-IsOnce steps (step s w) (step-IsOnce s w h)

pub idle-IsOnce : IsOnce idle
unfolding IsOnce
idle-IsOnce k = omega arith
