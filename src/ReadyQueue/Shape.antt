-- ===== src/ReadyQueue/Shape.antt =====
-- What the pointers of intrusive_queue.hpp spell: a chain of distinct nodes from `head_`, the last of
-- which is `tail_`.
use snowy.Prelude.{ℕ, ◌≡◌, refl, ◌≢◌, Option, none, some, List, [], ◌∷◌, ◌++◌, arith, All, sym}
use snowy.ReadyQueue.{Links, ReadyQueue, update}

abbrev pub Chain : Links → Option ℕ → List ℕ → Type 0
Chain l p [] = p ≡ none
Chain l p (x ∷ xs) = (p ≡ some x) × Chain l (l x) xs

abbrev pub Without : ℕ → List ℕ → Type 0
Without n xs = All (λ (m : ℕ). m ≢ n) xs

abbrev pub Distinct : List ℕ → Type 0
Distinct [] = Unit {0}
Distinct (x ∷ xs) = Without x xs × Distinct xs

abbrev pub last : List ℕ → Option ℕ
last [] = none
last (x ∷ []) = some x
last (x ∷ y ∷ ys) = last (y ∷ ys)

-- The queue's pointers hold the nodes `xs`, in order.
pub record IsQueue (l : Links) (q : ReadyQueue) (xs : List ℕ) : Type 0 where
  pub chain : Chain l q.head xs
  pub ends : q.tail ≡ last xs
  pub distinct : Distinct xs

pub Chain-update_off :
    (l : Links) (n : ℕ) (v p : Option ℕ) (xs : List ℕ)
    → Without n xs
    → Chain l p xs
    → Chain (update l n v) p xs
unfolding update
Chain-update_off l n v p [] w c = c
Chain-update_off l n v p (x ∷ xs) w c =
    let same : update l n v x ≡ l x = ground (arith, w.0) in
    (c.0, rw same (Chain-update_off l n v (l x) xs w.1 c.1))

pub last-Without : (x t : ℕ) (xs : List ℕ) → last xs ≡ some t → Without x xs → t ≢ x
last-Without x t [] e w = cc
last-Without x t (y ∷ []) e w = ground (arith, w.0)
last-Without x t (y ∷ z ∷ zs) e w = last-Without x t (z ∷ zs) e w.1

-- Linking a new node behind the last one extends the chain by it.
pub Chain-append :
    (l : Links) (n t : ℕ) (p : Option ℕ) (xs : List ℕ)
    → Chain l p xs
    → Distinct xs
    → last xs ≡ some t
    → l n ≡ none
    → Without n xs
    → Chain (update l t (some n)) p (xs ++ (n ∷ []))
unfolding update
Chain-append l n t p [] c d e f w = cc
Chain-append l n t p (x ∷ []) c d e f w = (c.0, (ground arith, ground (arith, w.0)))
Chain-append l n t p (x ∷ y ∷ ys) c d e f w =
    let off = last-Without x t (y ∷ ys) e d.0 in
    let same : update l t (some n) x ≡ l x = ground arith in
    (c.0, rw same (Chain-append l n t (l x) (y ∷ ys) c.1 d.1 e f w.1))

pub last-append : (n : ℕ) (xs : List ℕ) → last (xs ++ (n ∷ [])) ≡ some n
last-append n [] = refl
last-append n (x ∷ []) = refl
last-append n (x ∷ y ∷ ys) = last-append n (y ∷ ys)

Without-append : (x n : ℕ) (xs : List ℕ) → Without x xs → n ≢ x → Without x (xs ++ (n ∷ []))
Without-append x n [] w d = (d, tt)
Without-append x n (y ∷ ys) w d = (w.0, Without-append x n ys w.1 d)

pub Distinct-append : (n : ℕ) (xs : List ℕ) → Distinct xs → Without n xs → Distinct (xs ++ (n ∷ []))
Distinct-append n [] d w = (tt, tt)
Distinct-append n (x ∷ xs) d w =
    (Without-append x n xs d.0 (λ e. w.0 (sym e)), Distinct-append n xs d.1 w.1)
