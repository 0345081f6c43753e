-- ===== src/When/Raced.antt =====
-- What `when_any` of when.hpp answers.
use snowy.Prelude.{
  ℕ, ◌+◌, ◌<◌, ◌≡◌, refl, ap, ◌∙◌, Bool, true, false, ◌||◌, Option, none, some, List, [], ◌∷◌,
  ==_refl, if◌then◌else◌, length, get_or, replicate, is_none, length-replicate, arith,
}
use snowy.When.{
  Outcome, value, thrown, Join, Answer, returned, raised, undefined, create, error_of, collect,
  collect_all, launch_any, winner_answer, any_answer, when_any,
}
use snowy.When.Joined.{waits}
use snowy.When.Slots.{started, startup_error, Ends, is_in, overlay, collect_all_values, all_started}

or_true : (b : Bool) → b || true ≡ true
or_true true = refl
or_true false = refl

module _ {V : Type 0} where
  abbrev pub answer_of : ℕ → Outcome V → Answer (ℕ × V)
  answer_of w (value v) = returned (w, v)
  answer_of w (thrown e) = raised e

  -- The child that ends first decides.
  abbrev pub expected_any : ℕ → (ℕ → Outcome V) → List (Option ℕ) → List ℕ → Answer (ℕ × V)
  expected_any invalid out [] order = raised invalid
  expected_any invalid out (f ∷ fails) order = elim (startup_error (f ∷ fails)) [
    | some e ↦ raised e
    | none ↦ elim order [ [] ↦ undefined | w ∷ ws ↦ answer_of w (out w) ]
  ]

  launched_any :
      (fails : List (Option ℕ)) (s : Join V)
      → ((launch_any fails s).0 ≡ startup_error fails)
        × ((launch_any fails s).1.pending ≡ s.pending + started fails)
        × ((launch_any fails s).1.winner ≡ s.winner)
        × ((launch_any fails s).1.values ≡ s.values)
  launched_any [] s = (refl, omega arith, refl, refl)
  launched_any (none ∷ fails) s =
      let (e, p, w, v) = launched_any fails (record s { pending = s.pending + 1 }) in
      (e, omega (arith, p), w, v)
  launched_any (some x ∷ fails) s = (refl, omega arith, refl, refl)

  -- Once there is a winner, neither it nor its exception changes any more.
  later :
      (out : ℕ → Outcome V) (order : List ℕ) (s : Join V) (w : ℕ)
      → s.winner ≡ some w
      → ((collect_all true out order s).winner ≡ some w)
        × ((collect_all true out order s).error ≡ s.error)
        × (s.stop ≡ true → (collect_all true out order s).stop ≡ true)
  unfolding collect_all collect
  later out [] s w e = (e, refl, λ h. h)
  later out (j ∷ order) s w e =
      let has_winner : is_none s.winner ≡ false = ap is_none e in
      let (a, b, c) =
        later out order (collect true j (out j) s) w
          (ap (λ t. if t then some j else s.winner) has_winner ∙ e) in
      (
        a,
        b ∙ ap (λ t. if t then error_of (out j) else s.error) has_winner,
        λ h. c (ap (λ t. t || is_none s.winner) h),
      )

  abbrev pub Won : (ℕ → Outcome V) → ℕ → Join V → Type 0
  Won out w s = (s.winner ≡ some w) × (s.error ≡ error_of (out w)) × (s.stop ≡ true)

  -- From a state without a winner, the child that ends first becomes the winner with its exception,
  -- if any, its siblings are asked to stop, and no later end changes that.
  pub collect_all-Won :
      (out : ℕ → Outcome V) (w : ℕ) (order : List ℕ) (s : Join V)
      → s.winner ≡ none
      → Won out w (collect_all true out (w ∷ order) s)
  unfolding collect_all collect
  collect_all-Won out w order s e =
      let no_winner : is_none s.winner ≡ true = ap is_none e in
      let (a, b, c) =
        later out order (collect true w (out w) s) w
          (ap (λ t. if t then some w else s.winner) no_winner) in
      (
        a,
        b ∙ ap (λ t. if t then error_of (out w) else s.error) no_winner,
        c (ap (λ b. s.stop || b) no_winner ∙ or_true s.stop),
      )

  winner_value :
      (w : ℕ) (o : Outcome V) (s : Join V)
      → s.winner ≡ some w
      → s.error ≡ error_of o
      → ((v : V) → o ≡ value v → get_or s.values w none ≡ some v)
      → any_answer none s ≡ answer_of w o
  winner_value w (value v) s ew ee h =
      ap (λ x. elim x [ some e ↦ raised e | none ↦ winner_answer s.winner s.values ]) ee
      ∙ ap (λ x. winner_answer x s.values) ew
      ∙ ap (λ x. elim x [ none ↦ undefined | some u ↦ returned (w, u) ]) (h v refl)
  winner_value w (thrown x) s ew ee h =
      ap (λ y. elim y [ some e ↦ raised e | none ↦ winner_answer s.winner s.values ]) ee

  stored :
      (out : ℕ → Outcome V) (w : ℕ) (order : List ℕ) (s : Join V) (n : ℕ)
      → s.values ≡ replicate n none
      → w < n
      → (v : V) → out w ≡ value v
      → get_or (collect_all true out (w ∷ order) s).values w none ≡ some v
  stored out w order s n ev lt v e =
      collect_all_values true out (w ∷ order) s w
        (omega (arith, lt, ap length ev, length-replicate {A = Option V} n none))
      ∙ ap
          (λ b.
            if b || is_in w order
            then overlay (out w) (get_or s.values w none)
            else get_or s.values w none)
          (==_refl w)
      ∙ ap (λ o. overlay o (get_or s.values w none)) e

  decided :
      (out : ℕ → Outcome V) (startup : Option ℕ) (order : List ℕ) (s : Join V) (n : ℕ)
      → s.values ≡ replicate n none
      → s.winner ≡ none
      → (startup ≡ none → (length order ≡ n) × (0 < n) × ((w : ℕ) → is_in w order ≡ true → w < n))
      → any_answer startup (collect_all true out order s) ≡ elim startup [
        | some e ↦ raised e
        | none ↦ elim order [ [] ↦ undefined | w ∷ ws ↦ answer_of w (out w) ]
      ]
  decided out (some e) order s n ev ew h = refl
  decided out none [] s n ev ew h = let (len, pos, _) = h refl in absurd (omega (arith, len, pos))
  decided out none (w ∷ order) s n ev ew h =
      let (_, _, inside) = h refl in
      let (a, b, _) = collect_all-Won out w order s ew in
      winner_value w (out w) (collect_all true out (w ∷ order) s) a b
        (stored out w order s n ev (inside w (ap (λ t. t || is_in w order) (==_refl w))))

  -- When every child that was started ends, once, in any order, and no other does, `when_any`
  -- answers: for no factories with `invalid_argument`; else with the exception that stopped the
  -- start, if any; else with the position and the value of the child that ended first, or with
  -- its exception. It is never left suspended and reads no empty slot.
  pub when_any_answers :
      (invalid : ℕ) (fails : List (Option ℕ)) (out : ℕ → Outcome V) (order : List ℕ)
      → Ends (started fails) order
      → ((w : ℕ) → is_in w order ≡ true → w < started fails)
      → when_any invalid fails out order ≡ expected_any invalid out fails order
  unfolding when_any create
  when_any_answers invalid [] out order ends inside = refl
  when_any_answers invalid (f ∷ fs) out order ends inside =
      let fails = f ∷ fs in
      let (e, p, w, v) = launched_any fails (create (length fails)) in
      let s = (launch_any fails (create (length fails))).1 in
      let startup = (launch_any fails (create (length fails))).0 in
      waits (any_answer startup) true out order s (omega (arith, p, ends.0))
      ∙ ap (λ x. any_answer x (collect_all true out order s)) e
      ∙ decided out (startup_error fails) order s (length fails) v w (λ es.
        let n = all_started fails es in
        (ends.0 ∙ n, omega arith, λ k h. omega (arith, inside k h, n)))
