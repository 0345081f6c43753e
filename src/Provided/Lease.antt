-- ===== src/Provided/Lease.antt =====
-- Where the buffers are: with the kernel, in a completion that waits, or on lease.
use snowy.Prelude.{
  ℕ, zero, suc, ◌+◌, ◌-◌, ◌%◌, ◌<◌, ◌≤◌, ◌≡◌, ◌≢◌, refl, sym, ap, ◌∙◌, subst, true, false, List, [],
  ◌∷◌, ◌++◌, if_cases, length, get_or, replicate, All, Distinct, count_true-replicate,
  length-replicate, append_assoc, arith, min,
}
use snowy.Fault.{Result, ok, err, ◌>>=◌, Code, count, failed}
use snowy.Provided.{
  Provided, Chunk, capacity, successors, numbered, create, take, put, with_buffer, return_held,
}
use snowy.Provided.Order.{IsOrdered, Linked, Free, put-IsOrdered, taken-IsOrdered, take-with_buffer}

successor_at : (n i k j : ℕ) → j < k → get_or (successors n i k) j 0 ≡ (i + j + 1) % n
successor_at n i zero j h = absurd (omega arith)
successor_at n i (suc k) zero h = ap (λ x. (x + 1) % n) (omega arith)
successor_at n i (suc k) (suc j) h =
    successor_at n (i + 1) k j (omega arith) ∙ ap (λ x. (x + 1) % n) (omega arith)

length-successors : (n i k : ℕ) → length (successors n i k) ≡ k
length-successors n i zero = refl
length-successors n i (suc k) = ap suc (length-successors n (i + 1) k)

length-numbered : (i k : ℕ) → length (numbered i k) ≡ k
length-numbered i zero = refl
length-numbered i (suc k) = ap suc (length-numbered (i + 1) k)

small_mod : (a n : ℕ) → a < n → a % n ≡ a
small_mod a n h = grind arith

Linked-numbered : (n i k : ℕ) → i + k ≡ n → Linked (successors n 0 n) (n - 1) (numbered i k)
Linked-numbered n i zero h = tt
Linked-numbered n i (suc zero) h = omega arith
Linked-numbered n i (suc (suc k)) h = (
  successor_at n 0 n i (omega arith)
      ∙ ap (λ x. x % n) (omega arith)
      ∙ small_mod (i + 1) n (omega arith),
  Linked-numbered n (i + 1) (suc k) (omega arith),
)

unset : (n i : ℕ) → get_or (replicate n false) i false ≡ false
unset zero i = refl
unset (suc n) zero = refl
unset (suc n) (suc i) = unset n i

Free-numbered : (n i k : ℕ) → i + k ≤ n → All (Free n (replicate n false)) (numbered i k)
Free-numbered n i zero h = tt
Free-numbered n i (suc k) h = ((omega arith, unset n i), Free-numbered n (i + 1) k (omega arith))

above : (a i k : ℕ) → a < i → All (λ y. a ≢ y) (numbered i k)
above a i zero h = tt
above a i (suc k) h = (λ e. absurd (omega arith), above a (i + 1) k (omega arith))

Distinct-numbered : (i k : ℕ) → Distinct (numbered i k)
Distinct-numbered i zero = tt
Distinct-numbered i (suc k) = (above i (i + 1) k (omega arith), Distinct-numbered (i + 1) k)

-- A ring as its constructor leaves it.
abbrev pub fresh : ℕ → ℕ → Provided
fresh n size = record {
  count = n;
  size = size;
  leases = 0;
  held = replicate n false;
  next = successors n 0 n;
  tail = n - 1;
  is_set = false;
  ring = numbered 0 n;
}

create-fresh :
    (n size : ℕ) (code : Code) (p : Provided)
    → create n size code ≡ ok p
    → (0 < n) × (p ≡ fresh n size)
unfolding create capacity
create-fresh n size (count c) p e = ground arith
create-fresh n size (failed c) p e = ground arith

pub fresh-IsOrdered : (n size : ℕ) → 0 < n → IsOrdered (fresh n size) (fresh n size).ring
fresh-IsOrdered n size h = record {
  links = Linked-numbered n 0 n (omega arith);
  free = Free-numbered n 0 n (omega arith);
  distinct = Distinct-numbered 0 n;
  held_length = length-replicate n false;
  next_length = length-successors n 0 n;
  tail_below = omega arith;
  leased = sym (count_true-replicate n);
  shared = omega (arith, length-numbered 0 n);
}

-- The kernel takes its oldest buffer for a completion, the owner decodes the oldest completion that
-- waits, of the flags and size given, and a holder of a lease drops it.
pub data Event : Type 0 where
  fill : Event
  decode : ℕ → Event
  drop_lease : ℕ → Event

pub record World : Type 0 where
  pub pool : Provided
  pub waiting : List ℕ

abbrev pub filled : World → List ℕ → World
filled w [] = w
filled w (id ∷ rest) = record {
  pool = record w.pool { ring = rest };
  waiting = w.waiting ++ (id ∷ []);
}

abbrev pub decoded : ℕ → Provided → List ℕ → Result World
decoded size p [] = ok (record { pool = p; waiting = [] })
decoded size p (id ∷ rest) = do
  (chunk, p') ← take true (with_buffer 1 id) (min size p.size) p
  ok (record { pool = p'; waiting = rest })

unfoldable pub step : World → Event → Result World
step w fill = ok (filled w w.pool.ring)
step w (decode size) = decoded size w.pool w.waiting
step w (drop_lease id) = ok (record w { pool = return_held (id ∷ []) w.pool })

unfoldable pub run : List Event → World → Result World
run [] w = ok w
run (e ∷ es) w = step w e >>= run es

-- Nothing was refused, and every buffer is accounted for.
abbrev pub InPlace : Result World → Type 0
InPlace (err e) = ⊥
InPlace (ok w) = IsOrdered w.pool (w.waiting ++ w.pool.ring)

with_ring : (p : Provided) (r q : List ℕ) → IsOrdered p q → IsOrdered (record p { ring = r }) q
with_ring p r q v = record {
  links = v.links;
  free = v.free;
  distinct = v.distinct;
  held_length = v.held_length;
  next_length = v.next_length;
  tail_below = v.tail_below;
  leased = v.leased;
  shared = v.shared;
}

filled-InPlace :
    (w : World) (r : List ℕ)
    → r ≡ w.pool.ring
    → IsOrdered w.pool (w.waiting ++ w.pool.ring)
    → InPlace (ok (filled w r))
filled-InPlace w [] e v = v
filled-InPlace w (id ∷ rest) e v = with_ring w.pool rest ((w.waiting ++ (id ∷ [])) ++ rest) (
    subst (IsOrdered w.pool)
      (ap (λ r. w.waiting ++ r) (sym e) ∙ sym (append_assoc w.waiting (id ∷ []) rest)) v)

decoded-InPlace :
    (size : ℕ) (p : Provided) (waiting : List ℕ)
    → IsOrdered p (waiting ++ p.ring)
    → InPlace (decoded size p waiting)
decoded-InPlace size p [] v = v
decoded-InPlace size p (id ∷ rest) v =
    subst
      (λ (r : Result (Chunk × Provided)).
        InPlace (r >>= λ (x : Chunk × Provided). ok (record { pool = x.1; waiting = rest })))
      (sym (take-with_buffer p 1 id (min size p.size) (rest ++ p.ring) refl v (omega arith)))
      (taken-IsOrdered p id (rest ++ p.ring) v)

dropped-InPlace :
    (w : World) (id : ℕ)
    → IsOrdered w.pool (w.waiting ++ w.pool.ring)
    → InPlace (ok (record w { pool = return_held (id ∷ []) w.pool }))
unfolding return_held put
dropped-InPlace w id v =
    if_cases (λ (p : Provided). IsOrdered p (w.waiting ++ p.ring)) (get_or w.pool.held id false)
      (put id w.pool) w.pool
      (λ e.
        subst (IsOrdered (put id w.pool)) (append_assoc w.waiting w.pool.ring (id ∷ []))
          (put-IsOrdered w.pool (w.waiting ++ w.pool.ring) id e v))
      (λ _. v)

step-InPlace :
    (w : World) (e : Event) → IsOrdered w.pool (w.waiting ++ w.pool.ring) → InPlace (step w e)
unfolding step
step-InPlace w fill v = filled-InPlace w w.pool.ring refl v
step-InPlace w (decode size) v = decoded-InPlace size w.pool w.waiting v
step-InPlace w (drop_lease id) v = dropped-InPlace w id v

onward :
    (k : World → Result World) (r : Result World)
    → ((w : World) → IsOrdered w.pool (w.waiting ++ w.pool.ring) → InPlace (k w))
    → InPlace r
    → InPlace (r >>= k)
onward k (err e) h v = v
onward k (ok w) h v = h w v

run-InPlace :
    (es : List Event) (w : World) → IsOrdered w.pool (w.waiting ++ w.pool.ring) → InPlace (run es w)
unfolding run
run-InPlace [] w v = v
run-InPlace (e ∷ es) w v = onward (run es) (step w e) (λ u. run-InPlace es u) (step-InPlace w e v)

-- From a ring that was created, let the kernel fill buffers, its completions be decoded in their
-- order with no more bytes than a buffer has, and leases be dropped in any order. No completion is
-- refused, and after any number of such steps the buffers without a lease are distinct and stand in
-- one queue, those in completions that wait before those that the kernel has: each has the next as
-- its successor, the last is the tail, and with the leases they make up all buffers of the ring.
pub create-InPlace :
    (n size : ℕ) (code : Code) (p : Provided) (es : List Event)
    → create n size code ≡ ok p
    → InPlace (run es (record { pool = p; waiting = [] }))
create-InPlace n size code p es e =
    let f = create-fresh n size code p e in
    run-InPlace es (record { pool = p; waiting = [] })
      (subst (λ (x : Provided). IsOrdered x x.ring) (sym f.1) (fresh-IsOrdered n size f.0))
