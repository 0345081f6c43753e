-- ===== src/File/Handles/Released.antt =====
-- Descriptors and requests in flight under a change of the files of src/file.cpp.
use snowy.Prelude.{
  ℕ, zero, suc, ◌+◌, ◌-◌, ◌<◌, ◌≡◌, refl, sym, ap, ◌∙◌, subst, Bool, true, false, Option, none,
  some, List, [], ◌∷◌, ◌++◌, ◌==◌, ==_eq, ==_refl, Bool-cases, inl, inr, if◌then◌else◌, if_cases,
  length, get_or, set, get_or-set_ne, All, arith,
}
use snowy.Task.Handles.{some_below, one, hit, holds, holds-append, holds-set}
use snowy.File.Handles.{Files, fd_at, update, opened, closed, reserve, release}
use snowy.File.Handles.Lifetime.{Flight, flights_of, flight_at, without, Owned, Held}

pub get_or-length : (xs : List (Option ℕ)) → get_or xs (length xs) none ≡ none
get_or-length [] = refl
get_or-length (x ∷ xs) = get_or-length xs

get_or-append :
    (xs ys : List (Option ℕ)) (i v : ℕ)
    → get_or xs i none ≡ some v
    → get_or (xs ++ ys) i none ≡ some v
get_or-append [] ys i v e = cc
get_or-append (x ∷ xs) ys zero v e = e
get_or-append (x ∷ xs) ys (suc i) v e = get_or-append xs ys i v e

pub Held-append :
    (fds ys : List (Option ℕ)) (ps : List Flight) → All (Held fds) ps → All (Held (fds ++ ys)) ps
Held-append fds ys [] h = tt
Held-append fds ys ((i, none) ∷ ps) h = absurd h.0
Held-append fds ys ((i, some v) ∷ ps) h = (get_or-append fds ys i v h.0, Held-append fds ys ps h.1)

-- A file without a descriptor has no request in flight.
pub grounded :
    (fds : List (Option ℕ)) (n : ℕ) (ps : List Flight)
    → get_or fds n none ≡ none
    → All (Held fds) ps
    → flights_of n ps ≡ 0
grounded fds n [] e h = refl
grounded fds n ((i, none) ∷ ps) e h = absurd h.0
grounded fds n ((i, some v) ∷ ps) e h = elim (Bool-cases (i == n)) [
  | inl q ↦ absurd (clash (sym e ∙ ap (λ j. get_or fds j none) (sym (==_eq i n q)) ∙ h.0))
  | inr q ↦ omega (arith, ap one q, grounded fds n ps e h.1)
]
  where
    clash : ◌≡◌ {A = Option ℕ} none (some v) → ⊥
    clash q = cc

-- A file without requests in flight can lose its descriptor.
pub Held-set :
    (fds : List (Option ℕ)) (n : ℕ) (ps : List Flight)
    → flights_of n ps ≡ 0
    → All (Held fds) ps
    → All (Held (set fds n none)) ps
Held-set fds n [] e h = tt
Held-set fds n ((i, none) ∷ ps) e h = absurd h.0
Held-set fds n ((i, some v) ∷ ps) e h =
    (get_or-set_ne fds n i none none (λ q. apart q) ∙ h.0, Held-set fds n ps (omega arith) h.1)
  where
    apart : n ≡ i → ⊥
    apart q = omega (arith, e, ap (λ j. one (i == j)) q, ap one (==_refl i))

pub Held-without :
    (fds : List (Option ℕ)) (n : ℕ) (ps : List Flight)
    → All (Held fds) ps
    → All (Held fds) (without n ps)
Held-without fds n [] h = tt
Held-without fds zero (p ∷ ps) h = h.1
Held-without fds (suc n) (p ∷ ps) h = (h.0, Held-without fds n ps h.1)

pub flights_of-without :
    (n : ℕ) (p : Flight) (ps : List Flight) (k : ℕ)
    → flight_at n ps ≡ some p
    → flights_of k (without n ps) + one (p.0 == k) ≡ flights_of k ps
flights_of-without n p [] k e = cc
flights_of-without zero p (q ∷ ps) k e = subst at_some e (omega arith)
  where
    at_some : Option Flight → Type 0
    at_some none = Unit
    at_some (some x) = flights_of k ps + one (x.0 == k) ≡ one (q.0 == k) + flights_of k ps
flights_of-without (suc n) p (q ∷ ps) k e = omega (arith, flights_of-without n p ps k e)

-- The two ways in which a count of one file changes.
pub update-zero :
    (a : ℕ → ℕ) (n k : ℕ) (ps : List Flight)
    → flights_of n ps ≡ 0
    → a k ≡ flights_of k ps
    → update a n 0 k ≡ flights_of k ps
update-zero a n k ps e h =
    if_cases (λ x. x ≡ flights_of k ps) (n == k) 0 (a k)
      (λ q. sym e ∙ ap (λ j. flights_of j ps) (==_eq n k q)) (λ q. h)

pub update-one : (a : ℕ → ℕ) (n k v : ℕ) → v + 0 ≡ a n + 1 → update a n v k ≡ a k + one (n == k)
update-one a n k v e =
    if_cases (λ x. x ≡ a k + one (n == k)) (n == k) v (a k)
      (λ q. omega (arith, e, ap a (==_eq n k q), ap one q)) (λ q. omega (arith, ap one q))

pub update-less : (a : ℕ → ℕ) (n k : ℕ) → 0 < a n → update a n (a n - 1) k + one (n == k) ≡ a k
update-less a n k e =
    if_cases (λ x. x + one (n == k) ≡ a k) (n == k) (a n - 1) (a k)
      (λ q. omega (arith, e, ap a (==_eq n k q), ap one q)) (λ q. omega (arith, ap one q))

pub release-reserve : (fs : Files) (i k : ℕ) → (release i (reserve i fs)).active k ≡ fs.active k
release-reserve fs i k = omega (
  arith,
  update-less (reserve i fs).active i k (omega (arith, at_self)),
  update-one fs.active i k (fs.active i + 1) (omega arith),
)
  where
    at_self : (reserve i fs).active i ≡ fs.active i + 1
    at_self = ap (λ (b : Bool). if b then fs.active i + 1 else fs.active i) (==_refl i)

le_one : (b : Bool) → one b < 2
le_one true = omega arith
le_one false = omega arith

pub opened-Owned : (fs : Files) (fd : ℕ) → fs.is_open fd ≡ false → Owned fs → Owned (opened fd fs)
opened-Owned fs fd e h k = holds-append k fs.fds (some fd ∷ []) ∙ after
  where
    after : holds k fs.fds + (one (fd == k) + 0) ≡ one (update fs.is_open fd true k)
    after =
        if_cases (λ b. holds k fs.fds + (one (fd == k) + 0) ≡ one b) (fd == k) true (fs.is_open k)
          (λ q. omega (arith, h k, ap one q, ap (λ j. one (fs.is_open j)) (==_eq fd k q), ap one e))
          (λ q. omega (arith, h k, ap one q))

pub closed_again :
    (fs : Files) (fd k : ℕ)
    → fs.is_open fd ≡ false
    → update (update fs.is_open fd true) fd false k ≡ fs.is_open k
closed_again fs fd k e =
    if_cases (λ b. b ≡ fs.is_open k) (fd == k) false (update fs.is_open fd true k)
      (λ q. sym e ∙ ap fs.is_open (==_eq fd k q))
      (λ q. ap (λ (b : Bool). if b then true else fs.is_open k) q)

pub closed-Owned :
    (fs : Files) (i fd : ℕ) → fd_at fs i ≡ some fd → Owned fs → Owned (closed i (some fd) fs)
closed-Owned fs i fd e h k =
    if_cases (λ b. holds k (set fs.fds i none) ≡ one b) (fd == k) false (fs.is_open k)
      (λ q. omega (arith, fact, h k, ap (hit k) e, ap one q, le_one (fs.is_open k)))
      (λ q. omega (arith, fact, h k, ap (hit k) e, ap one q))
  where
    fact : holds k (set fs.fds i none) + hit k (fd_at fs i) ≡ holds k fs.fds + 0
    fact = holds-set k fs.fds i none (some_below fs.fds i fd e)
