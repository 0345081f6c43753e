-- ===== src/When/Timeout.antt =====
-- What `timeout` of when.hpp answers.
use snowy.Prelude.{ℕ, zero, suc, ◌<◌, ◌≡◌, refl, ap, ◌∙◌, true, Option, none, some, List, [], ◌∷◌}
use snowy.When.{
  Outcome, value, thrown, Answer, returned, raised, undefined, timer, racers, second, timeout,
}
use snowy.When.Slots.{started, Ends, is_in}
use snowy.When.Raced.{expected_any, when_any_answers, answer_of}

module _ {V : Type 0} where
  abbrev pub outcome : Outcome V → Answer V
  outcome (value v) = returned v
  outcome (thrown e) = raised e

  -- The child that ends first decides.
  abbrev pub decided : ℕ → Outcome V → Option ℕ → List ℕ → Answer V
  decided timed_out task sleep [] = undefined
  decided timed_out task sleep (zero ∷ order) = outcome task
  decided timed_out task none (suc i ∷ order) = raised timed_out
  decided timed_out task (some interrupted) (suc i ∷ order) = raised interrupted

  abbrev pub expected : ℕ → Option ℕ × Option ℕ → Outcome V → Option ℕ → List ℕ → Answer V
  expected timed_out (some e, b) task sleep order = raised e
  expected timed_out (none, some e) task sleep order = raised e
  expected timed_out (none, none) task sleep order = decided timed_out task sleep order

  second-answer_of : (i : ℕ) (o : Outcome V) → second (answer_of i o) ≡ outcome o
  second-answer_of i (value v) = refl
  second-answer_of i (thrown e) = refl

  second-expected_any :
      (invalid timed_out : ℕ) (fails : Option ℕ × Option ℕ) (task : Outcome V) (sleep : Option ℕ)
      (order : List ℕ)
      → second (
          expected_any invalid (racers task (timer timed_out sleep)) (fails.0 ∷ fails.1 ∷ []) order)
        ≡ expected timed_out fails task sleep order
  second-expected_any invalid timed_out (some e, b) task sleep order = refl
  second-expected_any invalid timed_out (none, some e) task sleep order = refl
  second-expected_any invalid timed_out (none, none) task sleep [] = refl
  second-expected_any invalid timed_out (none, none) task sleep (zero ∷ order) =
      second-answer_of 0 task
  second-expected_any invalid timed_out (none, none) task none (suc i ∷ order) = refl
  second-expected_any invalid timed_out (none, none) task (some e) (suc i ∷ order) = refl

  -- When each child that was started ends once, in either order, and no other does, `timeout` raises the
  -- exception of the start that failed, if any; else it gives the value or the exception of the task if the
  -- task ends first, and raises that of the timer if the timer does, which is `timed_out` unless its sleep
  -- was interrupted. It is never left suspended.
  pub timeout_answers :
      (invalid timed_out : ℕ) (fails : Option ℕ × Option ℕ) (task : Outcome V) (sleep : Option ℕ)
      (order : List ℕ)
      → Ends (started (fails.0 ∷ fails.1 ∷ [])) order
      → ((w : ℕ) → is_in w order ≡ true → w < started (fails.0 ∷ fails.1 ∷ []))
      → timeout invalid timed_out fails task sleep order ≡ expected timed_out fails task sleep order
  unfolding timeout
  timeout_answers invalid timed_out fails task sleep order ends inside =
      ap second (
        when_any_answers invalid (fails.0 ∷ fails.1 ∷ []) (racers task (timer timed_out sleep))
          order ends inside)
      ∙ second-expected_any invalid timed_out fails task sleep order
