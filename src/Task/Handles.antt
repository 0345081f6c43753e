-- ===== src/Task/Handles.antt =====
-- The objects that have a frame's handle, and the frames that exist.
use snowy.Prelude.{
  ℕ, zero, suc, ◌+◌, ◌<◌, ◌≡◌, refl, sym, ap, subst, Bool, true, false, Option, none, some, List,
  [], ◌∷◌, ◌++◌, ◌==◌, ==_refl, length, get_or, set, arith,
}
use snowy.Task.{Promise, Frame, Heap, alive_at, change, ended}

-- What a program does with the objects by number, those that do not exist being left alone, and what
-- the coroutine of a frame does.
pub data Step (T : Type 0) : Type 0 where
  make make_empty : Step T
  move await drop resume : ℕ → Step T
  move_into suspend : ℕ → ℕ → Step T
  finish : ℕ → T → Step T
  throw : ℕ → ℕ → Step T

abbrev pub one : Bool → ℕ
one true = 1
one false = 0

abbrev pub hit : ℕ → Option ℕ → ℕ
hit k none = 0
hit k (some j) = one (j == k)

-- The objects that have a frame's handle.
abbrev pub holds : ℕ → List (Option ℕ) → ℕ
holds k [] = 0
holds k (h ∷ hs) = hit k h + holds k hs

pub holds-append : (k : ℕ) (xs ys : List (Option ℕ)) → holds k (xs ++ ys) ≡ holds k xs + holds k ys
holds-append k [] ys = omega arith
holds-append k (x ∷ xs) ys = omega (arith, holds-append k xs ys)

pub holds-set :
    (k : ℕ) (hs : List (Option ℕ)) (i : ℕ) (v : Option ℕ)
    → i < length hs
    → holds k (set hs i v) + hit k (get_or hs i none) ≡ holds k hs + hit k v
holds-set k [] i v h = absurd (omega arith)
holds-set k (x ∷ xs) zero v h = omega arith
holds-set k (x ∷ xs) (suc i) v h = omega (arith, holds-set k xs i v (omega arith))

pub hit-le-holds :
    (k : ℕ) (hs : List (Option ℕ)) (i : ℕ) → get_or hs i none ≡ some k → 0 < holds k hs
hit-le-holds k [] i h = cc
hit-le-holds k (x ∷ xs) zero h =
    subst (λ y. 0 < hit k y + holds k xs) (sym h)
      (subst (λ b. 0 < one b + holds k xs) (sym (==_refl k)) (omega arith))
hit-le-holds k (x ∷ xs) (suc i) h = omega (arith, hit-le-holds k xs i h)

pub some_below : (xs : List (Option ℕ)) (i v : ℕ) → get_or xs i none ≡ some v → i < length xs
some_below [] i v e = cc
some_below (x ∷ xs) zero v e = omega arith
some_below (x ∷ xs) (suc i) v e = omega (arith, some_below xs i v e)

pub one_positive : (b : Bool) → 0 < one b → b ≡ true
one_positive true h = refl
one_positive false h = absurd (omega arith)

module _ {T : Type 0} where
  pub alive_at-append :
      (fs : List (Frame T)) (f : Frame T) (k : ℕ)
      → f.alive ≡ true
      → one (alive_at (fs ++ (f ∷ [])) k) ≡ one (alive_at fs k) + one (length fs == k)
  alive_at-append [] f zero h = ap one h
  alive_at-append [] f (suc k) h = ground arith
  alive_at-append (g ∷ fs) f zero h = ground arith
  alive_at-append (g ∷ fs) f (suc k) h = ground (arith, alive_at-append fs f k h)

  pub alive_at-ended :
      (fs : List (Frame T)) (j k : ℕ)
      → alive_at fs j ≡ true
      → one (alive_at (change ended j fs) k) + one (j == k) ≡ one (alive_at fs k)
  alive_at-ended [] j k h = cc
  alive_at-ended (f ∷ fs) zero zero h = ground arith
  alive_at-ended (f ∷ fs) zero (suc k) h = ground arith
  alive_at-ended (f ∷ fs) (suc j) zero h = ground arith
  alive_at-ended (f ∷ fs) (suc j) (suc k) h = ground (arith, alive_at-ended fs j k h)

  pub alive_at-change :
      (g : Promise T → Promise T) (fs : List (Frame T)) (j k : ℕ)
      → alive_at (change (λ f. record f { promise = g f.promise }) j fs) k ≡ alive_at fs k
  alive_at-change g [] j k = refl
  alive_at-change g (f ∷ fs) zero zero = refl
  alive_at-change g (f ∷ fs) zero (suc k) = refl
  alive_at-change g (f ∷ fs) (suc j) zero = refl
  alive_at-change g (f ∷ fs) (suc j) (suc k) = alive_at-change g fs j k

  -- A frame that exists has one owner, and any other has none.
  abbrev pub IsOwned : Heap T → Type 0
  IsOwned h = (k : ℕ) → holds k h.holders ≡ one (alive_at h.frames k)

  -- No frame was used or destroyed that did not exist.
  abbrev pub Safe : Option (Heap T) → Type 0
  Safe none = ⊥
  Safe (some h) = IsOwned h
