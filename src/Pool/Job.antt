-- ===== src/Pool/Job.antt =====
-- `pool::run` of pool.hpp: what the caller of a job gets. `before`, `during` and `after` say whether
-- cancellation has been requested, of the token or of the loop, at the three places that look; a
-- request is never taken back.
use snowy.Prelude.{ℕ, ◌≡◌, refl, Bool, true, false, not, Option, none, some, if◌then◌else◌}
use snowy.When.{Outcome, value, thrown}

pub data Result (V : Type 0) : Type 0 where
  returned : V → Result V
  raised : ℕ → Result V
  canceled : Result V
  -- The value of an empty slot.
  undefined : Result V

module _ {V : Type 0} where
  abbrev pub publish : Outcome V → Option V × Option ℕ
  publish (value v) = (some v, none)
  publish (thrown e) = (none, some e)

  -- What the worker leaves in the caller's frame; the function is called only without a request.
  unfoldable pub work : Bool → Outcome V → Option V × Option ℕ
  work during o = if not during then publish o else (none, none)

  abbrev pub resume : Option V × Option ℕ → Result V
  resume (v, some e) = raised e
  resume (some v, none) = returned v
  resume (none, none) = undefined

  -- `refused` is the exception of `enqueue` on a pool that is stopping.
  unfoldable pub run_job : Option ℕ → Bool → Bool → Bool → Outcome V → Result V
  run_job refused before during after o = if before then canceled else elim refused [
    | some e ↦ raised e
    | none ↦ (if after then canceled else resume (work during o))
  ]

  abbrev pub outcome_of : Outcome V → Result V
  outcome_of (value v) = returned v
  outcome_of (thrown e) = raised e

  abbrev pub expected : Option ℕ → Bool → Bool → Outcome V → Result V
  expected refused true after o = canceled
  expected (some e) false after o = raised e
  expected none false true o = canceled
  expected none false false o = outcome_of o

  -- When a request stays once it is made, the caller gets `operation_canceled` if there is one at the
  -- start or at the end, the refusal of a closed pool, or exactly what its function gave; the empty
  -- slot of a job that was skipped is never read.
  pub run_job_answers :
      (refused : Option ℕ) (before during after : Bool) (o : Outcome V)
      → (during ≡ true → after ≡ true)
      → run_job refused before during after o ≡ expected refused before after o
  unfolding run_job work
  run_job_answers refused true during after o h = refl
  run_job_answers (some e) false during after o h = refl
  run_job_answers none false during true o h = refl
  run_job_answers none false true false o h = absurd (cc (h refl))
  run_job_answers none false false false (value v) h = refl
  run_job_answers none false false false (thrown e) h = refl
