-- ===== src/Chain/Collected.antt =====
-- The results of a chain, whatever order its completions come in.
use snowy.Prelude.{
  ℕ, zero, suc, ◌<◌, ◌≡◌, refl, ◌∙◌, ap, ◌↔◌, Bool, true, false, List, [], ◌∷◌, ◌==◌, ==_eq,
  if◌then◌else◌, if_cases, length, get_or, set, replicate, arith, length-set, length-replicate,
  get_or-set_self, get_or-set_ne, count_true, count_true_cleared,
}
use snowy.Fault.{Code, count}
use snowy.Chain.{Batch, create, answered, retire}

-- Completions for the requests of a chain, and their retirements, as the kernel chooses.
pub data Event : Type 0 where
  answer : ℕ → Code → Event
  retirement : ℕ → Event

-- A batch with the requests that are still in flight.
pub record Flight : Type 0 where
  pub batch : Batch
  pub flying : List Bool

abbrev pub launched : ℕ → Flight
launched n = record { batch = create n; flying = replicate n true }

-- Only a request in flight retires, once.
unfoldable pub step : Flight → Event → Flight
step f (answer i code) = record f { batch = answered i code f.batch }
step f (retirement i) =
    if get_or f.flying i false
    then record { batch = retire f.batch; flying = set f.flying i false }
    else f

unfoldable pub run : List Event → Flight → Flight
run [] f = f
run (e ∷ es) f = run es (step f e)

abbrev pub last_answer : ℕ → List Event → Code → Code
last_answer i [] c = c
last_answer i (answer j code ∷ es) c = last_answer i es (if j == i then code else c)
last_answer i (retirement j ∷ es) c = last_answer i es c

pub record IsCounted (f : Flight) : Type 0 where
  pub pending : f.batch.pending ≡ count_true f.flying
  pub done : f.batch.done ≡ (f.batch.pending == 0)

retired-IsCounted :
    (f : Flight) (i : ℕ)
    → IsCounted f
    → get_or f.flying i false ≡ true
    → IsCounted (record { batch = retire f.batch; flying = set f.flying i false })
unfolding retire
retired-IsCounted f i v h = ground (arith, count_true_cleared f.flying i h, v.pending, v.done)

step-IsCounted : (f : Flight) (e : Event) → IsCounted f → IsCounted (step f e)
unfolding step answered
step-IsCounted f (answer i code) v = record { pending = v.pending; done = v.done }
step-IsCounted f (retirement i) v =
    if_cases IsCounted (get_or f.flying i false)
      (record { batch = retire f.batch; flying = set f.flying i false }) f
      (λ h. retired-IsCounted f i v h) (λ _. v)

run-IsCounted : (es : List Event) (f : Flight) → IsCounted f → IsCounted (run es f)
unfolding run
run-IsCounted [] f v = v
run-IsCounted (e ∷ es) f v = run-IsCounted es (step f e) (step-IsCounted f e v)

-- A step leaves the number of results alone, and its answer stands at its place.
step-results : (f : Flight) (e : Event) → length (step f e).batch.results ≡ length f.batch.results
unfolding step answered retire
step-results f (answer i code) = length-set f.batch.results i code
step-results f (retirement i) = ground arith

answered_at :
    (rs : List Code) (j i : ℕ) (code : Code)
    → i < length rs
    → get_or (set rs j code) i (count 0) ≡ (if j == i then code else get_or rs i (count 0))
answered_at rs j i code h =
    if_cases (λ c. get_or (set rs j code) i (count 0) ≡ c) (j == i) code (get_or rs i (count 0))
      (λ e.
        ap (λ k. get_or (set rs k code) i (count 0)) (==_eq j i e)
        ∙ get_or-set_self rs i code (count 0) h)
      (λ e. get_or-set_ne rs j i code (count 0) (λ p. differ j i e p))
  where
    differ : (j i : ℕ) → j == i ≡ false → j ≡ i → ⊥
    differ j i e p = ground arith

kept_results : (f : Flight) (j : ℕ) → (step f (retirement j)).batch.results ≡ f.batch.results
unfolding step retire
kept_results f j = ground arith

run-last_answer :
    (es : List Event) (f : Flight) (i : ℕ)
    → i < length f.batch.results
    → get_or (run es f).batch.results i (count 0)
      ≡ last_answer i es (get_or f.batch.results i (count 0))
unfolding run step answered
run-last_answer [] f i h = refl
run-last_answer (answer j code ∷ es) f i h =
    run-last_answer es (step f (answer j code)) i (omega (arith, step-results f (answer j code)))
    ∙ ap (last_answer i es) (answered_at f.batch.results j i code h)
run-last_answer (retirement j ∷ es) f i h =
    run-last_answer es (step f (retirement j)) i (omega (arith, step-results f (retirement j)))
    ∙ ap (λ r. last_answer i es (get_or r i (count 0))) (kept_results f j)

launched-IsCounted : (n : ℕ) → IsCounted (launched (suc n))
unfolding create
launched-IsCounted n = record { pending = ap suc (all_flying n); done = ground arith }
  where
    all_flying : (n : ℕ) → n ≡ count_true (replicate n true)
    all_flying zero = refl
    all_flying (suc n) = ap suc (all_flying n)

launched_results : (n : ℕ) → length (launched n).batch.results ≡ n
unfolding create
launched_results n = length-replicate n (count 0)

first_result : (n i : ℕ) → get_or (replicate n (count 0)) i (count 0) ≡ count 0
first_result zero i = refl
first_result (suc n) zero = refl
first_result (suc n) (suc i) = first_result n i

launched_result : (n i : ℕ) → get_or (launched n).batch.results i (count 0) ≡ count 0
unfolding create
launched_result n i = first_result n i

-- However the completions and retirements of a batch of at least one request are ordered: the
-- batch's event is set exactly when no request is in flight any more, and the result at each place
-- of the batch is the last one that the request at that place was answered, zero before the first.
pub run-launched :
    (n : ℕ) (es : List Event)
    → 0 < n
    → (((run es (launched n)).batch.done ≡ true) ↔ (count_true (run es (launched n)).flying ≡ 0))
      × ((i : ℕ)
          → i < n
          → get_or (run es (launched n)).batch.results i (count 0) ≡ last_answer i es (count 0))
run-launched zero es h = absurd (omega arith)
run-launched (suc n) es h =
    let v = run-IsCounted es (launched (suc n)) (launched-IsCounted n) in
    (
      ground (arith, v.pending, v.done),
      λ i below.
          run-last_answer es (launched (suc n)) i (omega (arith, launched_results (suc n)))
          ∙ ap (last_answer i es) (launched_result (suc n) i),
    )
