-- ===== src/When.antt =====
-- include/snowy/when.hpp: the state that a join keeps while its children run, and the joins
-- themselves. A child ends with a value or with an exception, known by a number; a move of its value
-- that throws is such an exception. `order` is the order in which the children end, which is up to
-- them. Starting a child can fail: `fails` has the exception for each that does.
pub mod Slots
pub mod Joined
pub mod Raced
pub mod Timeout
mod Tests
use snowy.Prelude.{
  ℕ, zero, suc, ◌+◌, ◌-◌, Bool, true, false, ◌&&◌, ◌||◌, Option, none, some, List, [], ◌∷◌, ◌==◌,
  if◌then◌else◌, length, get_or, set, replicate, is_empty, is_none,
}

pub data Outcome (V : Type 0) : Type 0 where
  value : V → Outcome V
  thrown : ℕ → Outcome V

-- `join` with the result slots of `group`; `stop` says that its source has been asked to stop, `done`
-- that its event is set.
pub record Join (V : Type 0) : Type 0 where
  pub pending : ℕ
  pub winner : Option ℕ
  pub error : Option ℕ
  pub stop : Bool
  pub done : Bool
  pub values : List (Option V)

-- What a join leaves its caller with. Without the end of a child that it waits for it is suspended;
-- the value of an empty slot is undefined.
pub data Answer (R : Type 0) : Type 0 where
  returned : R → Answer R
  raised : ℕ → Answer R
  suspended undefined : Answer R

-- `if (error && !state.error) state.error = error`.
abbrev pub first : Option ℕ → Option ℕ → Option ℕ
first none error = error
first (some e) error = some e

module _ {V : Type 0} where
  unfoldable pub create : ℕ → Join V
  create size = record {
    pending = 0;
    winner = none;
    error = none;
    stop = false;
    done = false;
    values = replicate size none;
  }

  abbrev pub error_of : Outcome V → Option ℕ
  error_of (value v) = none
  error_of (thrown e) = some e

  abbrev pub store : ℕ → Outcome V → List (Option V) → List (Option V)
  store i (value v) values = set values i (some v)
  store i (thrown e) values = values

  -- The last part of `collect`, once the child has ended.
  unfoldable pub collect : Bool → ℕ → Outcome V → Join V → Join V
  collect race i o s =
      let first_here = race && is_none s.winner in
      record {
        pending = s.pending - 1;
        winner = (if first_here then some i else s.winner);
        error =
            (if race
              then (if first_here then error_of o else s.error)
              else first s.error (error_of o));
        stop = s.stop || first_here;
        done = s.done || (s.pending - 1) == 0;
        values = store i o s.values;
      }

  unfoldable pub collect_all : Bool → (ℕ → Outcome V) → List ℕ → Join V → Join V
  collect_all race out [] s = s
  collect_all race out (i ∷ order) s = collect_all race out order (collect race i (out i) s)

  -- The children are started one by one, up to the first that fails.
  abbrev pub launch : List (Option ℕ) → Join V → Join V
  launch [] s = s
  launch (none ∷ fails) s = launch fails (record s { pending = s.pending + 1 })
  launch (some e ∷ fails) s = record s { error = some e }

  -- `values.push_back(std::move(*value))`.
  abbrev pub unwrap : List (Option V) → Option (List V)
  unwrap [] = some []
  unwrap (none ∷ values) = none
  unwrap (some v ∷ values) =
      let rest = unwrap values in elim rest [ none ↦ none | some vs ↦ some (v ∷ vs) ]

  abbrev pub all_answer : Join V → Answer (List V)
  all_answer s = elim s.error [
    | some e ↦ raised e
    | none ↦ elim (unwrap s.values) [ none ↦ undefined | some vs ↦ returned vs ]
  ]

  unfoldable pub when_all : List (Option ℕ) → (ℕ → Outcome V) → List ℕ → Answer (List V)
  when_all fails out order =
      let s = launch fails (create (length fails)) in
      let ended = collect_all false out order s in
      if s.pending == 0 then all_answer s else if ended.done then all_answer ended else suspended

  -- A failed start asks the started children to stop, and `startup` goes before their errors.
  abbrev pub launch_any : List (Option ℕ) → Join V → Option ℕ × Join V
  launch_any [] s = (none, s)
  launch_any (none ∷ fails) s = launch_any fails (record s { pending = s.pending + 1 })
  launch_any (some e ∷ fails) s = (some e, record s { stop = true })

  abbrev pub winner_answer : Option ℕ → List (Option V) → Answer (ℕ × V)
  winner_answer none values = undefined
  winner_answer (some i) values = elim (get_or values i none) [
    | none ↦ undefined
    | some v ↦ returned (i, v)
  ]

  abbrev pub any_answer : Option ℕ → Join V → Answer (ℕ × V)
  any_answer (some e) s = raised e
  any_answer none s = elim s.error [ some e ↦ raised e | none ↦ winner_answer s.winner s.values ]

  -- `invalid` is the exception for an empty list of factories.
  unfoldable pub when_any : ℕ → List (Option ℕ) → (ℕ → Outcome V) → List ℕ → Answer (ℕ × V)
  when_any invalid fails out order =
      let (startup, s) = launch_any fails (create (length fails)) in
      let ended = collect_all true out order s in
      if is_empty fails
      then raised invalid
      else if s.pending == 0
      then any_answer startup s
      else if ended.done
      then any_answer startup ended
      else suspended

  -- The second child never has a value: behind its sleep it throws `timed_out`, and an interrupted
  -- sleep throws an exception of its own.
  abbrev pub timer : ℕ → Option ℕ → Outcome V
  timer timed_out none = thrown timed_out
  timer timed_out (some interrupted) = thrown interrupted

  abbrev pub racers : Outcome V → Outcome V → ℕ → Outcome V
  racers task sleeper zero = task
  racers task sleeper (suc i) = sleeper

  -- `std::move(result.second)`.
  abbrev pub second : Answer (ℕ × V) → Answer V
  second (returned (i, v)) = returned v
  second (raised e) = raised e
  second suspended = suspended
  second undefined = undefined

  -- `order` has the children in the order of their ends, and `fails` the exceptions of their starts.
  unfoldable pub timeout : ℕ → ℕ → Option ℕ × Option ℕ → Outcome V → Option ℕ → List ℕ → Answer V
  timeout invalid timed_out fails task sleep order =
      second (when_any invalid (fails.0 ∷ fails.1 ∷ []) (racers task (timer timed_out sleep)) order)
