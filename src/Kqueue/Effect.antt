-- ===== src/Kqueue/Effect.antt =====
-- What each call of src/kqueue.cpp does to the requests that are armed or completed.
use snowy.Prelude.{
  ℕ, ◌+◌, ◌≡◌, refl, ap, ap₂, ◌∙◌, subst, not, ◌&&◌, Option, none, some, List, [], ◌∷◌, ◌==◌,
  if◌then◌else◌, if_cases, same, arith,
}
use snowy.Kqueue.{
  Request, Driver, Answer, count, failed, Attempt, attempted, attempt, change_filter, complete,
  forget, add_filter, succeeded, armed, settled, submit, released, Event, user, filter_error, ready,
  handle, reads, would_wait, is_file, is_nop, is_eintr, is_connect, is_accept,
  operation_not_supported,
}
use snowy.Kqueue.Single.{
  one, occurs, Absent, Keyed, occurs-append, forget-Absent, Absent-forget, Keyed-forget, Keyed-add,
  filter_at, occurs-forget,
}

-- How often a request is armed or has completed.
abbrev pub total : ℕ → Driver → ℕ
total k d = occurs k d.filters + occurs k d.completed

-- A result with one more occurrence of a request, if the calls return.
abbrev pub Grown : ℕ → Driver → Option Driver → Type 0
Grown i d none = Unit
Grown i d (some e) = Keyed e.filters × ((k : ℕ) → total k e ≡ total k d + one (i == k))

-- A result with the occurrences of a driver.
abbrev pub Steady : Driver → Option Driver → Type 0
Steady d none = Unit
Steady d (some e) = Keyed e.filters × ((k : ℕ) → total k e ≡ total k d)

pub complete-Grown :
    (r : Request) (d : Driver) → Keyed d.filters → Grown r.id d (some (complete r d))
complete-Grown r d h = (h, λ k. omega arith)

add_filter-Grown :
    (r : Request) (d : Driver)
    → Absent r d.filters
    → Keyed d.filters
    → Grown r.id d (some (add_filter r d))
add_filter-Grown r d a h = (
  Keyed-add r (forget r d.filters) (Absent-forget r d.filters) (Keyed-forget r d.filters h),
  λ k. omega (
    arith,
    occurs-append k (forget r d.filters) (r ∷ []),
    ap (occurs k) (forget-Absent r d.filters a),
  ),
)

-- What attempts leave of a request: its number, its descriptor and its operation.
abbrev Same : Request → Request → Type 0
Same r s = (s.id ≡ r.id) × ((s.fd ≡ r.fd) × (s.code ≡ r.code))

abbrev Left : Request → Option (Request × Answer) → Type 0
Left r none = Unit
Left r (some (s, a)) = Same r s

attempt-Left : (r : Request) (answers : List Attempt) → Left r (attempt r answers)
unfolding attempt
attempt-Left r [] = tt
attempt-Left r (a ∷ answers) = last (attempt-Left (attempted r a) answers) a.answer
  where
    last :
        Left r (attempt (attempted r a) answers)
        → (x : Answer)
        → Left r (elim x [
          | count n ↦ some (attempted r a, count n)
          | failed e ↦
              if is_eintr e && not (is_connect r.code)
              then attempt (attempted r a) answers
              else some (attempted r a, failed e)
        ])
    last rest (count n) = (refl, (refl, refl))
    last rest (failed e) =
        if_cases (Left r) (is_eintr e && not (is_connect r.code)) (attempt (attempted r a) answers)
          (some (attempted r a, failed e)) (λ _. rest) (λ _. (refl, (refl, refl)))

Absent-Same : (r s : Request) (fs : List Request) → Same r s → Absent r fs → Absent s fs
Absent-Same r s [] p h = tt
Absent-Same r s (f ∷ fs) p h = (
  ap₂ (λ fd code. f.fd == fd && same (reads f.code) (reads code)) p.1.0 p.1.1 ∙ h.0,
  Absent-Same r s fs p h.1,
)

succeeded-Grown :
    (r : Request) (n : ℕ) (d : Driver)
    → Keyed d.filters
    → Grown r.id d (some (complete (succeeded r n) d))
succeeded-Grown r n d h =
    if_cases (λ s. Grown r.id d (some (complete s d))) (is_accept r.code)
      (record r { accepted = some n }) (record r { bytes = n })
      (λ _. complete-Grown (record r { accepted = some n }) d h)
      (λ _. complete-Grown (record r { bytes = n }) d h)

armed-Grown :
    (r : Request) (change : Option Answer) (d : Driver)
    → Absent r d.filters
    → Keyed d.filters
    → Grown r.id d (armed r change d)
armed-Grown r none d a h = tt
armed-Grown r (some (count n)) d a h = add_filter-Grown r d a h
armed-Grown r (some (failed e)) d a h = complete-Grown (record r { error = some e }) d h

settled-Grown :
    (r : Request) (o : Option (Request × Answer)) (changes : List Answer) (d : Driver)
    → Left r o
    → Absent r d.filters
    → Keyed d.filters
    → Grown r.id d (settled o changes d)
settled-Grown r none changes d l a h = tt
settled-Grown r (some (s, count n)) changes d l a h =
    subst (λ i. Grown i d (some (complete (succeeded s n) d))) l.0 (succeeded-Grown s n d h)
settled-Grown r (some (s, failed e)) changes d l a h =
    subst (λ i. Grown i d (settled (some (s, failed e)) changes d)) l.0
      (if_cases (Grown s.id d) (would_wait s.code e) (armed s (change_filter changes) d)
        (some (complete (record s { error = some e }) d))
        (λ _. armed-Grown s (change_filter changes) d (Absent-Same r s d.filters l a) h)
        (λ _. complete-Grown (record s { error = some e }) d h))

pub submit-Grown :
    (r : Request) (answers : List Attempt) (changes : List Answer) (d : Driver)
    → Absent r d.filters
    → Keyed d.filters
    → Grown r.id d (submit r answers changes d)
unfolding submit
submit-Grown r answers changes d a h =
    if_cases (Grown r.id d) (is_file r.code)
      (some (complete (record r { error = some operation_not_supported }) d))
      (if is_nop r.code
        then some (complete (succeeded r 0) d)
        else settled (attempt r answers) changes d)
      (λ _. complete-Grown (record r { error = some operation_not_supported }) d h)
      (λ _.
        if_cases (Grown r.id d) (is_nop r.code) (some (complete (succeeded r 0) d))
          (settled (attempt r answers) changes d) (λ _. succeeded-Grown r 0 d h)
          (λ _. settled-Grown r (attempt r answers) changes d (attempt-Left r answers) a h))

-- A filter that goes leaves room for its request to be armed again or to complete.
pub released-Steady :
    (i : ℕ) (r : Request) (d : Driver) (o : Option Driver)
    → filter_at i d.filters ≡ some r
    → Keyed d.filters
    → Grown r.id (released r d) o
    → Steady d o
released-Steady i r d none e h g = tt
released-Steady i r d (some x) e h g =
    (g.0, λ k. omega (arith, g.1 k, occurs-forget i r d.filters k e h))

pub handle-Steady :
    (i : ℕ) (r : Request) (event : Event) (d : Driver)
    → filter_at i d.filters ≡ some r
    → Keyed d.filters
    → Steady d (handle r event d)
handle-Steady i r user d e h = (h, λ k. refl)
handle-Steady i r (filter_error x) d e h =
    released-Steady i r d (some (complete (record r { error = some x }) (released r d))) e h
      (complete-Grown (record r { error = some x }) (released r d) (Keyed-forget r d.filters h))
handle-Steady i r (ready answers changes) d e h =
    released-Steady i r d (submit r answers changes (released r d)) e h (
      submit-Grown r answers changes (released r d) (Absent-forget r d.filters)
        (Keyed-forget r d.filters h))
