-- ===== src/ReadyQueue/Fifo.antt =====
-- The queue of intrusive_queue.hpp is a FIFO, and two queues over one store of links do not meet.
use snowy.Prelude.{
  ℕ, ◌≡◌, refl, none, some, List, [], ◌∷◌, ◌++◌, arith, All, is_none, is_empty, if◌then◌else◌, sym,
  ◌∙◌,
}
use snowy.ReadyQueue.{Links, ReadyQueue, update, empty, push, pop}
use snowy.ReadyQueue.Shape.{
  Chain, Without, Distinct, last, IsQueue, Chain-update_off, Chain-append, last-append,
  Distinct-append, last-Without,
}

-- The tail of a queue that is not empty is its last node.
last_nonempty : (x : ℕ) (xs : List ℕ) → (t : ℕ) × (last (x ∷ xs) ≡ some t)
last_nonempty x [] = (x, refl)
last_nonempty x (y ∷ ys) = last_nonempty y ys

-- `empty` tells whether nothing is queued.
pub empty_lem : (l : Links) (q : ReadyQueue) (xs : List ℕ) → IsQueue l q xs → empty q ≡ is_empty xs
unfolding empty
empty_lem l q [] v = rw v.chain
empty_lem l q (x ∷ xs) v = rw v.chain.0

-- A node that is not in the queue, its link null, goes to the end; the others keep their order.
pub push-IsQueue :
    (l : Links) (q : ReadyQueue) (xs : List ℕ) (n : ℕ)
    → IsQueue l q xs
    → l n ≡ none
    → Without n xs
    → IsQueue (push l q n).0 (push l q n).1 (xs ++ (n ∷ []))
unfolding push
push-IsQueue l q [] n v e w =
    rw v.ends (record { chain = (refl, e); ends = refl; distinct = (tt, tt) })
push-IsQueue l q (x ∷ xs) n v e w =
    let (t, f) = last_nonempty x xs in
    rw (v.ends ∙ f) (record {
      chain = Chain-append l n t q.head (x ∷ xs) v.chain v.distinct f e w;
      ends = sym (last-append n (x ∷ xs));
      distinct = Distinct-append n (x ∷ xs) v.distinct w;
    })

-- From a queue that is not empty the oldest node comes out with its link null again, so it may be
-- queued anew; the others stay in their order.
pub pop-IsQueue :
    (l : Links) (q : ReadyQueue) (x : ℕ) (xs : List ℕ)
    → IsQueue l q (x ∷ xs)
    → ((pop l q).0 ≡ some x) × IsQueue (pop l q).1 (pop l q).2 xs × ((pop l q).1 x ≡ none)
unfolding pop
pop-IsQueue l q x xs v = rw v.chain.0 (refl, rest xs v.chain.1 v.ends v.distinct, cleared)
  where
    cleared : update l x none x ≡ none
    cleared = unfold update in ground arith

    rest :
        (ys : List ℕ)
        → Chain l (l x) ys
        → q.tail ≡ last (x ∷ ys)
        → Distinct (x ∷ ys)
        → IsQueue
            (update l x none)
            (record { head = l x; tail = (if is_none (l x) then none else q.tail) })
            ys
    rest [] c e d = record { chain = c; ends = rw c; distinct = tt }
    rest (y ∷ ys) c e d = record {
      chain = Chain-update_off l x none (l x) (y ∷ ys) d.0 c;
      ends = rw (c.0, e);
      distinct = d.1;
    }

-- An empty queue gives the null pointer and stays as it is.
pub pop-empty : (l : Links) (q : ReadyQueue) → IsQueue l q [] → pop l q ≡ (none, l, q)
unfolding pop
pop-empty l q v = rw v.chain

-- The last node of one queue is none of the other's.
last_apart :
    (t : ℕ) (xs ys : List ℕ) → last xs ≡ some t → All (λ (y : ℕ). Without y xs) ys → Without t ys
last_apart t xs [] e a = tt
last_apart t xs (y ∷ ys) e a =
    (λ same. last-Without y t xs e a.0 (sym same), last_apart t xs ys e a.1)

-- Two queues with no node in common: neither a push to one of them nor a pop from it disturbs the
-- other.
pub other_undisturbed :
    (l : Links) (q p : ReadyQueue) (xs ys : List ℕ) (n : ℕ)
    → IsQueue l q xs
    → IsQueue l p ys
    → All (λ (y : ℕ). Without y xs) ys
    → IsQueue (push l q n).0 p ys × IsQueue (pop l q).1 p ys
unfolding push pop
other_undisturbed l q p [] ys n v u a = (rw v.ends u', rw v.chain u')
  where
    u' : IsQueue l p ys
    u' = u
other_undisturbed l q p (x ∷ xs) ys n v u a =
    let (t, f) = last_nonempty x xs in
    (
      rw (v.ends ∙ f) (record {
        chain = Chain-update_off l t (some n) p.head ys (last_apart t (x ∷ xs) ys f a) u.chain;
        ends = u.ends;
        distinct = u.distinct;
      }),
      rw v.chain.0 (record {
        chain = Chain-update_off l x none p.head ys (heads ys a) u.chain;
        ends = u.ends;
        distinct = u.distinct;
      }),
    )
  where
    heads : (zs : List ℕ) → All (λ (z : ℕ). Without z (x ∷ xs)) zs → Without x zs
    heads [] b = tt
    heads (z ∷ zs) b = (λ same. b.0.0 (sym same), heads zs b.1)
