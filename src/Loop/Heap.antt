-- ===== src/Loop/Heap.antt =====
-- The heap of timers. src/loop.cpp calls `std::push_heap`, `std::pop_heap` and `std::make_heap` of
-- the standard library on the vector `timers_`, with the comparison `later`. How they order equal
-- deadlines is not specified, so they are a parameter with the laws that the standard gives.
use mathlib.Core.List.{Perm}
use snowy.Prelude.{◌≤◌, ◌≡◌, List, [], ◌∷◌, ◌++◌, All}
use snowy.Loop.{Timer}

pub record StdHeap : Type 1 where
  pub push_heap : List Timer → List Timer
  pub pop_heap : List Timer → List Timer
  pub make_heap : List Timer → List Timer
  pub IsHeap : List Timer → Type 0
  -- The front of a heap has the earliest deadline.
  pub front_first :
      (t : Timer) (ts : List Timer) → IsHeap (t ∷ ts) → All (λ (u : Timer). t.due ≤ u.due) ts
  pub push_IsHeap : (ts : List Timer) (t : Timer) → IsHeap ts → IsHeap (push_heap (ts ++ (t ∷ [])))
  pub push_perm : (ts : List Timer) → Perm (push_heap ts) ts
  -- The front is moved behind what is left, which is a heap.
  pub pop_moves :
      (t : Timer) (ts : List Timer)
      → IsHeap (t ∷ ts)
      → (us : List Timer) × (pop_heap (t ∷ ts) ≡ us ++ (t ∷ [])) × IsHeap us × Perm us ts
  pub make_IsHeap : (ts : List Timer) → IsHeap (make_heap ts)
  pub make_perm : (ts : List Timer) → Perm (make_heap ts) ts
