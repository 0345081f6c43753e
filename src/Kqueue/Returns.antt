-- ===== src/Kqueue/Returns.antt =====
-- The loops of src/kqueue.cpp end with the first answer that is no interruption.
use snowy.Prelude.{
  ◌≡◌, Bool, true, false, not, ◌&&◌, ◌||◌, Option, none, some, List, [], ◌∷◌, if◌then◌else◌,
  if_cases,
}
use snowy.Kqueue.{
  Request, Driver, Opcode, Answer, count, failed, Attempt, attempted, attempt, change_filter,
  complete, succeeded, armed, settled, submit, would_wait, is_file, is_nop, is_eintr, is_connect,
  operation_not_supported,
}

-- The call is not made again.
abbrev pub is_last : Opcode → Answer → Bool
is_last code (count n) = true
is_last code (failed e) = not (is_eintr e && not (is_connect code))

abbrev pub has_last : Opcode → List Attempt → Bool
has_last code [] = false
has_last code (a ∷ answers) = is_last code a.answer || has_last code answers

abbrev pub is_change : Answer → Bool
is_change (count n) = true
is_change (failed e) = not (is_eintr e)

abbrev pub has_change : List Answer → Bool
has_change [] = false
has_change (c ∷ changes) = is_change c || has_change changes

abbrev pub Returns {ℓ} : {A : Type ℓ} → Option A → Type 0
Returns none = ⊥
Returns (some a) = Unit

left_out : (b c : Bool) → b ≡ true → not b || c ≡ true → c ≡ true
left_out true c p q = q
left_out false c p q = absurd (cc)

attempt-Returns :
    (r : Request) (answers : List Attempt)
    → has_last r.code answers ≡ true
    → Returns (attempt r answers)
unfolding attempt
attempt-Returns r [] h = cc
attempt-Returns r (a ∷ answers) h = last a.answer h (attempt-Returns (attempted r a) answers)
  where
    last :
        (x : Answer)
        → is_last r.code x || has_last r.code answers ≡ true
        → (has_last r.code answers ≡ true → Returns (attempt (attempted r a) answers))
        → Returns {A = Request × Answer} (elim x [
          | count n ↦ some (attempted r a, count n)
          | failed e ↦
              if is_eintr e && not (is_connect r.code)
              then attempt (attempted r a) answers
              else some (attempted r a, failed e)
        ])
    last (count n) g rest = tt
    last (failed e) g rest =
        if_cases Returns (is_eintr e && not (is_connect r.code)) (attempt (attempted r a) answers)
          (some (attempted r a, failed e))
          (λ p.
            rest (left_out (is_eintr e && not (is_connect r.code)) (has_last r.code answers) p g))
          (λ _. tt)

change_filter-Returns :
    (changes : List Answer) → has_change changes ≡ true → Returns (change_filter changes)
unfolding change_filter
change_filter-Returns [] h = cc
change_filter-Returns (count n ∷ changes) h = tt
change_filter-Returns (failed e ∷ changes) h =
    if_cases Returns (is_eintr e) (change_filter changes) (some (failed e))
      (λ p. change_filter-Returns changes (left_out (is_eintr e) (has_change changes) p h))
      (λ _. tt)

armed-Returns :
    (r : Request) (change : Option Answer) (d : Driver)
    → Returns change
    → Returns (armed r change d)
armed-Returns r none d h = h
armed-Returns r (some (count n)) d h = tt
armed-Returns r (some (failed e)) d h = tt

settled-Returns :
    (o : Option (Request × Answer)) (changes : List Answer) (d : Driver)
    → Returns o
    → has_change changes ≡ true
    → Returns (settled o changes d)
settled-Returns none changes d h c = h
settled-Returns (some (r, count n)) changes d h c = tt
settled-Returns (some (r, failed e)) changes d h c =
    if_cases Returns (would_wait r.code e) (armed r (change_filter changes) d)
      (some (complete (record r { error = some e }) d))
      (λ _. armed-Returns r (change_filter changes) d (change_filter-Returns changes c)) (λ _. tt)

-- Whatever the request and the driver, `submit` returns if one attempt of its call ends without an
-- interruption, or any attempt to connect does, and one change of the queue ends without an interruption.
pub submit-Returns :
    (r : Request) (answers : List Attempt) (changes : List Answer) (d : Driver)
    → has_last r.code answers ≡ true
    → has_change changes ≡ true
    → Returns (submit r answers changes d)
unfolding submit
submit-Returns r answers changes d h c =
    if_cases Returns (is_file r.code)
      (some (complete (record r { error = some operation_not_supported }) d))
      (if is_nop r.code
        then some (complete (succeeded r 0) d)
        else settled (attempt r answers) changes d)
      (λ _. tt)
      (λ _.
        if_cases Returns (is_nop r.code) (some (complete (succeeded r 0) d))
          (settled (attempt r answers) changes d) (λ _. tt)
          (λ _. settled-Returns (attempt r answers) changes d (attempt-Returns r answers h) c))
