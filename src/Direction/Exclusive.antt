-- ===== src/Direction/Exclusive.antt =====
-- At most one request uses a direction of a socket at a time.
use snowy.Prelude.{
  ℕ, ◌≡◌, refl, Bool, true, false, ◌||◌, List, [], ◌∷◌, ◌==◌, if◌then◌else◌, if_cases,
}
use snowy.Direction.{Direction, create, contains, await_suspend, complete, give_back, may_move}

pub data Event : Type 0 where
  suspends : ℕ → Bool → Bool → Event
  completes : ℕ → Event
  -- A request that is not pending is resumed or destroyed.
  ends : ℕ → Event

unfoldable pub step : Direction → Event → Direction
step d (suspends id armed accepts) = (await_suspend d id armed accepts).1
step d (completes id) = complete d id
step d (ends id) = if contains id d.linked then d else give_back d id

unfoldable pub run : Direction → List Event → Direction
run d [] = d
run d (e ∷ es) = run (step d e) es

-- The direction is free; it is reserved by a request; or that one is also pending.
pub data IsUsed : Direction → Type 0 where
  free : IsUsed (record { busy = false; reserved = []; linked = [] })
  kept : (id : ℕ) → IsUsed (record { busy = true; reserved = id ∷ []; linked = [] })
  waits : (id : ℕ) → IsUsed (record { busy = true; reserved = id ∷ []; linked = id ∷ [] })

suspended-IsUsed :
    (id : ℕ) (armed accepts : Bool)
    → (d : Direction) → IsUsed d
    → IsUsed ((await_suspend d id armed accepts).1)
unfolding await_suspend
suspended-IsUsed id false accepts _ free = free
suspended-IsUsed id true true _ free = waits id
suspended-IsUsed id true false _ free = kept id
suspended-IsUsed id armed accepts _ (kept j) = kept j
suspended-IsUsed id armed accepts _ (waits j) = waits j

completed-IsUsed : (id : ℕ) (d : Direction) → IsUsed d → IsUsed (complete d id)
unfolding complete
completed-IsUsed id _ free = free
completed-IsUsed id _ (kept j) = kept j
completed-IsUsed id _ (waits j) =
    if_cases (λ (l : List ℕ). IsUsed (record { busy = true; reserved = j ∷ []; linked = l }))
      (j == id) [] (j ∷ []) (λ _. kept j) (λ _. waits j)

kept_back :
    (j : ℕ) (same : Bool)
    → IsUsed (
        if same || false
        then record { busy = false; reserved = (if same then [] else j ∷ []); linked = [] }
        else record { busy = true; reserved = j ∷ []; linked = [] })
kept_back j true = free
kept_back j false = kept j

waits_on :
    (j : ℕ) (same : Bool)
    → IsUsed (
        if same || false
        then record { busy = true; reserved = j ∷ []; linked = j ∷ [] }
        else (if same || false
            then record { busy = false; reserved = (if same then [] else j ∷ []); linked = j ∷ [] }
            else record { busy = true; reserved = j ∷ []; linked = j ∷ [] }))
waits_on j true = waits j
waits_on j false = waits j

given_back-IsUsed :
    (id : ℕ) (d : Direction)
    → IsUsed d
    → IsUsed (if contains id d.linked then d else give_back d id)
unfolding give_back
given_back-IsUsed id _ free = free
given_back-IsUsed id _ (kept j) = kept_back j (j == id)
given_back-IsUsed id _ (waits j) = waits_on j (j == id)

step-IsUsed : (d : Direction) (e : Event) → IsUsed d → IsUsed (step d e)
unfolding step
step-IsUsed d (suspends id armed accepts) u = suspended-IsUsed id armed accepts d u
step-IsUsed d (completes id) u = completed-IsUsed id d u
step-IsUsed d (ends id) u = given_back-IsUsed id d u

run-from : (d : Direction) (es : List Event) → IsUsed d → IsUsed (run d es)
unfolding run
run-from d [] u = u
run-from d (e ∷ es) u = run-from (step d e) es (step-IsUsed d e u)

quiet :
    (reading writing : Direction)
    → IsUsed reading
    → IsUsed writing
    → may_move reading writing ≡ true
    → (reading.linked ≡ []) × (writing.linked ≡ [])
unfolding may_move
quiet _ _ free free h = (refl, refl)
quiet _ _ free (kept j) h = absurd (cc)
quiet _ _ free (waits j) h = absurd (cc)
quiet _ _ (kept i) w h = absurd (cc)
quiet _ _ (waits i) w h = absurd (cc)

-- Whatever is awaited, completed, resumed and destroyed on the two directions of a socket, in any
-- order, each direction is free, or reserved by one request, which alone may be pending, and the
-- flag says so. A socket that may be moved has no pending request in either direction.
pub run-IsUsed :
    (es es' : List Event)
    → IsUsed (run create es)
      × IsUsed (run create es')
      × (may_move (run create es) (run create es') ≡ true
          → ((run create es).linked ≡ []) × ((run create es').linked ≡ []))
unfolding create
run-IsUsed es es' =
    let u = run-from create es free in
    let u' = run-from create es' free in (u, u', quiet (run create es) (run create es') u u')
