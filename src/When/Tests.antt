-- ===== src/When/Tests.antt =====
-- The joins of when.hpp at concrete inputs.
use snowy.Prelude.{
  ℕ, zero, suc, ◌+◌, ◌<◌, ◌≡◌, refl, true, Option, none, some, List, [], ◌∷◌, arith, ◌==◌,
  if◌then◌else◌,
}
use snowy.When.{
  Outcome, value, thrown, returned, raised, create, collect, collect_all, when_all, when_any,
  timeout,
}
use snowy.When.Slots.{Ends, is_in, expected_all}
use snowy.When.Joined.{when_all_answers}
use snowy.When.Raced.{expected_any, when_any_answers}
use snowy.When.Timeout.{expected, timeout_answers}

-- Three children; the one in the middle fails, and they end from the last on.
abbrev out : ℕ → Outcome ℕ
out i = if i == 1 then thrown 40 else value (i + 10)

abbrev fine : ℕ → Outcome ℕ
fine i = value (i + 10)

abbrev order : List ℕ
order = 2 ∷ 0 ∷ 1 ∷ []

abbrev starts : List (Option ℕ)
starts = none ∷ none ∷ none ∷ []

below_three : (P : ℕ → Type 0) → P 0 → P 1 → P 2 → (i : ℕ) → i < 3 → P i
below_three P a b c zero h = a
below_three P a b c (suc zero) h = b
below_three P a b c (suc (suc zero)) h = c
below_three P a b c (suc (suc (suc i))) h = absurd (omega arith)

order-Ends : Ends 3 order
order-Ends = (refl, below_three (λ i. is_in i order ≡ true) refl refl refl)

order_inside : (w : ℕ) → is_in w order ≡ true → w < 3
order_inside w h = ground arith

failed : when_all starts out order ≡ raised 40
unfolding when_all create collect_all collect
failed = refl

succeeded : when_all starts fine order ≡ returned (10 ∷ 11 ∷ 12 ∷ [])
unfolding when_all create collect_all collect
succeeded = refl

raced : when_any 7 starts out order ≡ returned (2, 12)
unfolding when_any create collect_all collect
raced = refl

when_all_answers_example : when_all starts fine order ≡ expected_all 0 fine starts order
when_all_answers_example = when_all_answers 0 starts fine order order-Ends

when_any_answers_example : when_any 7 starts out order ≡ expected_any 7 out starts order
when_any_answers_example = when_any_answers 7 starts out order order-Ends order_inside

-- The timer ends before the task, which has been asked to stop.
abbrev late : List ℕ
late = 1 ∷ 0 ∷ []

below_two : (P : ℕ → Type 0) → P 0 → P 1 → (i : ℕ) → i < 2 → P i
below_two P a b zero h = a
below_two P a b (suc zero) h = b
below_two P a b (suc (suc i)) h = absurd (omega arith)

late-Ends : Ends 2 late
late-Ends = (refl, below_two (λ i. is_in i late ≡ true) refl refl)

late_inside : (w : ℕ) → is_in w late ≡ true → w < 2
late_inside w h = ground arith

timeout_answers_example :
    timeout {V = ℕ} 7 110 (none, none) (value 4) none late
    ≡ expected 110 (none, none) (value 4) none late
timeout_answers_example =
    timeout_answers {V = ℕ} 7 110 (none, none) (value 4) none late late-Ends late_inside

times_out : timeout {V = ℕ} 7 110 (none, none) (value 4) none late ≡ raised 110
unfolding timeout when_any create collect_all collect
times_out = refl

finishes : timeout {V = ℕ} 7 110 (none, none) (value 4) (some 125) (0 ∷ 1 ∷ []) ≡ returned 4
unfolding timeout when_any create collect_all collect
finishes = refl
