-- ===== src/When/Joined.antt =====
-- What `when_all` of when.hpp answers.
use snowy.Prelude.{
  ℕ, ◌≡◌, refl, sym, ap, ◌∙◌, Bool, false, Option, none, some, List, [], ◌∷◌, ◌==◌, ==_eq,
  if◌then◌else◌, if_cases, length, get_or, replicate, length-replicate, arith,
}
use snowy.When.{
  Outcome, Join, Answer, suspended, first, create, collect_all, launch, unwrap, all_answer,
  when_all,
}
use snowy.When.Slots.{
  started, startup_error, Ends, get_or-replicate, first_split, all_started, first_error, value_or,
  in_input_order, expected_all, overlay, collect_all_values, length-collect_all, collect_all_error,
  collect_all_done, launched, succeeded, unwrap_all, answered,
}

module _ {V : Type 0} where
  -- A join whose children all end answers from the state that they leave.
  pub waits :
      {R : Type 0} (answer : Join V → Answer R) (race : Bool) (out : ℕ → Outcome V) (order : List ℕ)
      (s : Join V)
      → s.pending ≡ length order
      → (let ended = collect_all race out order s in
          if s.pending == 0 then answer s else if ended.done then answer ended else suspended)
        ≡ answer (collect_all race out order s)
  unfolding collect_all
  waits answer race out [] s e =
      let ended = collect_all race out [] s in
      ap (λ n. if n == 0 then answer s else if ended.done then answer ended else suspended) e
  waits answer race out (j ∷ order) s e =
      let ended = collect_all race out (j ∷ order) s in
      if_cases (λ a. a ≡ answer ended) (s.pending == 0) (answer s)
        (if ended.done then answer ended else suspended)
        (λ z. absurd (omega (arith, e, ==_eq s.pending 0 z)))
        (λ _.
          ap (λ b. if b then answer ended else suspended) (collect_all_done race out j order s e))

  -- With all children started and none failed, every slot is filled.
  filled :
      (d : V) (out : ℕ → Outcome V) (fails : List (Option ℕ)) (order : List ℕ) (s : Join V)
      → Ends (started fails) order
      → s.values ≡ replicate (length fails) none
      → startup_error fails ≡ none
      → first_error out order ≡ none
      → unwrap (collect_all false out order s).values
        ≡ some (in_input_order d out 0 (started fails))
  filled d out fails order s ends ev es ef =
      let ended = (collect_all false out order s).values in
      let len : length ended ≡ started fails =
        length-collect_all false out order s
        ∙ ap length ev
        ∙ length-replicate (length fails) none
        ∙ sym (all_started fails es) in
      unwrap_all d out 0 ended (λ j lt.
        collect_all_values false out order s j
          (omega (arith, lt, length-collect_all false out order s))
        ∙ ap (λ b. if b then overlay (out j) (get_or s.values j none) else get_or s.values j none)
            (ends.1 j (omega (arith, len)))
        ∙ ap (λ x. overlay (out j) x)
            (ap (λ vs. get_or vs j none) ev ∙ get_or-replicate (length fails) j)
        ∙ succeeded d out order j ef (ends.1 j (omega (arith, len)))
        ∙ ap (λ k. some (value_or d (out k))) (omega arith))
      ∙ ap (λ n. some (in_input_order d out 0 n)) len

  -- When every child that was started ends, once, in any order, `when_all` answers: with the
  -- exception that stopped the start, if any; else with the exception of the child that was the
  -- first to end with one; else with the values of all children by their positions in the input. It
  -- is never left suspended and reads no empty slot.
  pub when_all_answers :
      (d : V) (fails : List (Option ℕ)) (out : ℕ → Outcome V) (order : List ℕ)
      → Ends (started fails) order
      → when_all fails out order ≡ expected_all d out fails order
  unfolding when_all create
  when_all_answers d fails out order ends =
      let s = launch fails (create (length fails)) in
      let (p, e, v) = launched fails (create (length fails)) refl in
      let ended = collect_all false out order s in
      waits all_answer false out order s (omega (arith, p, ends.0))
      ∙ answered ended (first (startup_error fails) (first_error out order))
          (in_input_order d out 0 (started fails))
          (collect_all_error out order s ∙ ap (λ x. first x (first_error out order)) e)
          (λ none_thrown.
            let (es, ef) = first_split (startup_error fails) (first_error out order) none_thrown in
            filled d out fails order s ends v es ef)
