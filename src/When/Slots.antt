-- ===== src/When/Slots.antt =====
-- What the children of a join of when.hpp leave in its state.
use snowy.Prelude.{
  ℕ, zero, suc, ◌+◌, ◌<◌, ◌≡◌, ◌≢◌, refl, sym, ap, ◌∙◌, subst, Bool, true, false, ◌||◌, Option,
  none, some, List, [], ◌∷◌, ◌==◌, ==_eq, if◌then◌else◌, if_cases, length, get_or, replicate,
  length-set, get_or-set_self, get_or-set_ne, Bool-cases, arith, inl, inr,
}
use snowy.When.{
  Outcome, value, thrown, Join, Answer, returned, raised, undefined, first, error_of, store,
  collect, collect_all, launch, unwrap, all_answer,
}

-- How many children are started, and the exception that stopped that.
abbrev pub started : List (Option ℕ) → ℕ
started [] = 0
started (none ∷ fails) = suc (started fails)
started (some e ∷ fails) = 0

abbrev pub startup_error : List (Option ℕ) → Option ℕ
startup_error [] = none
startup_error (none ∷ fails) = startup_error fails
startup_error (some e ∷ fails) = some e

abbrev pub is_in : ℕ → List ℕ → Bool
is_in i [] = false
is_in i (j ∷ js) = j == i || is_in i js

-- Every started child ends, once.
abbrev pub Ends : ℕ → List ℕ → Type 0
Ends n order = (length order ≡ n) × ((i : ℕ) → i < n → is_in i order ≡ true)

pub ne : (i j : ℕ) → j == i ≡ false → j ≢ i
ne i j e h = ground arith

pub get_or-replicate {ℓ} :
    {A : Type ℓ} (n i : ℕ) → get_or {A = Option A} (replicate n none) i none ≡ none
get_or-replicate zero i = refl
get_or-replicate (suc n) zero = refl
get_or-replicate (suc n) (suc i) = get_or-replicate n i

pub first-none : (a : Option ℕ) → first a none ≡ a
first-none none = refl
first-none (some e) = refl

pub first_assoc : (a b c : Option ℕ) → first (first a b) c ≡ first a (first b c)
first_assoc none b c = refl
first_assoc (some e) b c = refl

pub first_split : (a b : Option ℕ) → first a b ≡ none → (a ≡ none) × (b ≡ none)
first_split none b h = (refl, h)
first_split (some e) b h = absurd (cc)

pub all_started :
    (fails : List (Option ℕ)) → startup_error fails ≡ none → started fails ≡ length fails
all_started [] h = refl
all_started (none ∷ fails) h = ap suc (all_started fails h)
all_started (some e ∷ fails) h = absurd (cc)

module _ {V : Type 0} where
  -- The exception of the child that ends first among those that end with one.
  abbrev pub first_error : (ℕ → Outcome V) → List ℕ → Option ℕ
  first_error out [] = none
  first_error out (i ∷ order) = first (error_of (out i)) (first_error out order)

  abbrev pub value_or : V → Outcome V → V
  value_or d (value v) = v
  value_or d (thrown e) = d

  -- The values of the `n` children from `i` on, by their positions.
  abbrev pub in_input_order : V → (ℕ → Outcome V) → ℕ → ℕ → List V
  in_input_order d out i zero = []
  in_input_order d out i (suc n) = value_or d (out i) ∷ in_input_order d out (suc i) n

  abbrev pub expected_all : V → (ℕ → Outcome V) → List (Option ℕ) → List ℕ → Answer (List V)
  expected_all d out fails order = elim (first (startup_error fails) (first_error out order)) [
    | some e ↦ raised e
    | none ↦ returned (in_input_order d out 0 (started fails))
  ]

  abbrev pub overlay : Outcome V → Option V → Option V
  overlay (value v) old = some v
  overlay (thrown e) old = old

  pub length-store :
      (i : ℕ) (o : Outcome V) (vs : List (Option V)) → length (store i o vs) ≡ length vs
  length-store i (value v) vs = length-set vs i (some v)
  length-store i (thrown e) vs = refl

  pub store_self :
      (i : ℕ) (o : Outcome V) (vs : List (Option V))
      → i < length vs
      → get_or (store i o vs) i none ≡ overlay o (get_or vs i none)
  store_self i (value v) vs h = get_or-set_self vs i (some v) none h
  store_self i (thrown e) vs h = refl

  pub store_ne :
      (i j : ℕ) (o : Outcome V) (vs : List (Option V))
      → i ≢ j
      → get_or (store i o vs) j none ≡ get_or vs j none
  store_ne i j (value v) vs h = get_or-set_ne vs i j (some v) none h
  store_ne i j (thrown e) vs h = refl

  pub overlay_twice : (o : Outcome V) (old : Option V) → overlay o (overlay o old) ≡ overlay o old
  overlay_twice (value v) old = refl
  overlay_twice (thrown e) old = refl

  pub store_at :
      (out : ℕ → Outcome V) (i j : ℕ) (vs : List (Option V))
      → i < length vs
      → get_or (store j (out j) vs) i none
        ≡ (if j == i then overlay (out i) (get_or vs i none) else get_or vs i none)
  store_at out i j vs h =
      if_cases (λ x. get_or (store j (out j) vs) i none ≡ x) (j == i)
        (overlay (out i) (get_or vs i none)) (get_or vs i none)
        (λ e.
          subst (λ k. get_or (store j (out j) vs) k none ≡ overlay (out k) (get_or vs k none))
            (==_eq j i e) (store_self j (out j) vs (omega (arith, ==_eq j i e))))
        (λ e. store_ne j i (out j) vs (ne i j e))

  pub merged :
      (o : Outcome V) (old : Option V) (t b : Bool)
      → (if b
          then overlay o (if t then overlay o old else old)
          else (if t then overlay o old else old))
        ≡ (if t || b then overlay o old else old)
  merged o old true true = overlay_twice o old
  merged o old true false = refl
  merged o old false true = refl
  merged o old false false = refl

  -- What the children leave in the state of the join.
  pub collect_all_values :
      (race : Bool) (out : ℕ → Outcome V) (order : List ℕ) (s : Join V) (i : ℕ)
      → i < length s.values
      → get_or (collect_all race out order s).values i none ≡ (
          if is_in i order
          then overlay (out i) (get_or s.values i none)
          else get_or s.values i none)
  unfolding collect_all collect
  collect_all_values race out [] s i h = refl
  collect_all_values race out (j ∷ order) s i h =
      collect_all_values race out order (collect race j (out j) s) i
        (omega (arith, length-store j (out j) s.values))
      ∙ ap (λ x. if is_in i order then overlay (out i) x else x) (store_at out i j s.values h)
      ∙ merged (out i) (get_or s.values i none) (j == i) (is_in i order)

  pub length-collect_all :
      (race : Bool) (out : ℕ → Outcome V) (order : List ℕ) (s : Join V)
      → length (collect_all race out order s).values ≡ length s.values
  unfolding collect_all collect
  length-collect_all race out [] s = refl
  length-collect_all race out (j ∷ order) s =
      length-collect_all race out order (collect race j (out j) s) ∙ length-store j (out j) s.values

  pub collect_all_error :
      (out : ℕ → Outcome V) (order : List ℕ) (s : Join V)
      → (collect_all false out order s).error ≡ first s.error (first_error out order)
  unfolding collect_all collect
  collect_all_error out [] s = sym (first-none s.error)
  collect_all_error out (j ∷ order) s =
      collect_all_error out order (collect false j (out j) s)
      ∙ first_assoc s.error (error_of (out j)) (first_error out order)

  pub collect_all_done :
      (race : Bool) (out : ℕ → Outcome V) (j : ℕ) (order : List ℕ) (s : Join V)
      → s.pending ≡ suc (length order)
      → (collect_all race out (j ∷ order) s).done ≡ true
  unfolding collect_all collect
  collect_all_done race out j [] s e = ground (arith, e)
  collect_all_done race out j (k ∷ order) s e =
      collect_all_done race out k order (collect race j (out j) s) (omega (arith, e))

  pub launched :
      (fails : List (Option ℕ)) (s : Join V)
      → s.error ≡ none
      → ((launch fails s).pending ≡ s.pending + started fails)
        × ((launch fails s).error ≡ startup_error fails)
        × ((launch fails s).values ≡ s.values)
  launched [] s e = (omega arith, e, refl)
  launched (none ∷ fails) s e =
      let (p, r, v) = launched fails (record s { pending = s.pending + 1 }) e in
      (omega (arith, p), r, v)
  launched (some x ∷ fails) s e = (omega arith, refl, refl)

  pub succeeded :
      (d : V) (out : ℕ → Outcome V) (order : List ℕ) (i : ℕ)
      → first_error out order ≡ none
      → is_in i order ≡ true
      → overlay (out i) none ≡ some (value_or d (out i))
  succeeded d out [] i e h = absurd (cc)
  succeeded d out (j ∷ order) i e h =
      let (here, rest) = first_split (error_of (out j)) (first_error out order) e in
      elim (Bool-cases (j == i)) [
        | inl same ↦ good d (out i) (ap (λ k. error_of (out k)) (sym (==_eq j i same)) ∙ here)
        | inr other ↦ succeeded d out order i rest (sym (ap (λ b. b || is_in i order) other) ∙ h)
      ]
    where
      good : (d : V) (o : Outcome V) → error_of o ≡ none → overlay o none ≡ some (value_or d o)
      good d (value v) e = refl
      good d (thrown x) e = absurd (cc)

  pub unwrap_all :
      (d : V) (out : ℕ → Outcome V) (i : ℕ) (xs : List (Option V))
      → ((j : ℕ) → j < length xs → get_or xs j none ≡ some (value_or d (out (i + j))))
      → unwrap xs ≡ some (in_input_order d out i (length xs))
  unwrap_all d out i [] h = refl
  unwrap_all d out i (x ∷ xs) h =
      let at = λ (a b : ℕ) (e : a ≡ b). ap (λ k. some (value_or d (out k))) e in
      let v = value_or d (out i) in
      let ih =
        unwrap_all d out (suc i) xs
          (λ j lt. h (suc j) (omega arith) ∙ at (i + suc j) (suc i + j) (omega arith)) in
      ap (λ y. unwrap (y ∷ xs)) (h 0 (omega arith) ∙ at (i + 0) i (omega arith))
      ∙ ap (λ r. elim r [ none ↦ none | some vs ↦ some (v ∷ vs) ]) ih

  pub answered :
      (s : Join V) (err : Option ℕ) (vs : List V)
      → s.error ≡ err
      → (err ≡ none → unwrap s.values ≡ some vs)
      → all_answer s ≡ elim err [ some e ↦ raised e | none ↦ returned vs ]
  answered s none vs e h =
      ap
        (λ x. elim x [
          | some e ↦ raised e
          | none ↦ elim (unwrap s.values) [ none ↦ undefined | some us ↦ returned us ]
        ])
        e
      ∙ ap (λ r. elim r [ none ↦ undefined | some us ↦ returned us ]) (h refl)
  answered s (some x) vs e h =
      ap
        (λ y. elim y [
          | some e ↦ raised e
          | none ↦ elim (unwrap s.values) [ none ↦ undefined | some us ↦ returned us ]
        ])
        e
