-- ===== src/Loop/Ends.antt =====
-- How `loop::run` of src/loop.cpp ends.
use snowy.Prelude.{ℕ, zero, suc, ◌≡◌, refl, true, false, Option, none, some, List, ◌∷◌}
use snowy.Loop.{Loop, Io, Work, create}
use snowy.Loop.Heap.{StdHeap}
use snowy.Loop.Expire.{expire, pop_due}
use snowy.Loop.Run.{
  Outcome, nested, returned, raised, threw, going, detach, next, run_ready, try_expire, round,
  rounds, run,
}
use snowy.Loop.Exit.{Drained}

-- A run that ends by itself leaves a drained loop that may run again, and its error is taken out; one that
-- ends by an exception of the poll or of a cancellation leaves a loop that may run again.
abbrev pub Ended : Loop → Outcome → Type 0
Ended l nested = l.running ≡ true
Ended l (returned l') = Drained l' × (l'.running ≡ false) × (l'.error ≡ none)
Ended l (raised e l') = Drained l' × (l'.running ≡ false) × (l'.error ≡ none)
Ended l (threw e l') = l'.running ≡ false
Ended l (going l') = l.running ≡ false

module _ (heap : StdHeap) (call : ℕ → Loop → Loop × Option ℕ) (handle : ℕ → Loop → Loop)
    (resume : Work → Loop → Loop) (throws : Io → Option ℕ)
    (wait : Option ℕ → Loop → Loop × Option ℕ) where
  -- A loop that is new but for its error, with nothing to do, ends its first round and raises the
  -- error, if any.
  pub run_rests :
      (budget now later : ℕ) (times : List (ℕ × ℕ)) (error : Option ℕ)
      → run heap call handle resume throws wait
          ((now, later) ∷ times)
          (record (create budget) { error = error })
        ≡ elim error [ none ↦ returned (create budget) | some e ↦ raised e (create budget) ]
  unfolding run rounds round create detach try_expire expire pop_due run_ready next
  run_rests zero now later times none = refl
  run_rests zero now later times (some e) = refl
  run_rests (suc budget) now later times none = refl
  run_rests (suc budget) now later times (some e) = refl
