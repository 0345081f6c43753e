-- ===== src/Provided/Order.antt =====
-- The order in which buffers were published, as `next` and `tail` keep it.
use snowy.Prelude.{
  ℕ, ◌+◌, ◌<◌, ◌≤◌, ◌≡◌, ◌≢◌, refl, sym, ap, ◌∙◌, subst, Bool, true, false, List, [], ◌∷◌, ◌++◌,
  ◌==◌, length, get_or, set, All, All-append, Distinct, Distinct-append_one, count_true,
  count_true_cleared, count_true_marked, length-set, length-append, get_or-set_self, get_or-set_ne,
  set_flag_lt, arith,
}
use snowy.Fault.{ok}
use snowy.Provided.{Provided, buffer_of, has_buffer, with_buffer, take, put}

-- Each buffer's successor is the one published after it, and the last is the tail.
abbrev pub Linked : List ℕ → ℕ → List ℕ → Type 0
Linked next tail [] = Unit
Linked next tail (a ∷ []) = a ≡ tail
Linked next tail (a ∷ b ∷ rest) = (get_or next a 0 ≡ b) × Linked next tail (b ∷ rest)

-- A buffer that is free: it exists and no lease holds it.
abbrev pub Free : ℕ → List Bool → ℕ → Type 0
Free n held id = (id < n) × (get_or held id false ≡ false)

-- The buffers that no lease holds, in the order of their publication: those that the kernel has
-- taken for completions that are not decoded yet, and then those that it still has in its ring.
pub record IsOrdered (p : Provided) (queue : List ℕ) : Type 0 where
  pub links : Linked p.next p.tail queue
  pub free : All (Free p.count p.held) queue
  pub distinct : Distinct queue
  pub held_length : length p.held ≡ p.count
  pub next_length : length p.next ≡ p.count
  pub tail_below : p.tail < p.count
  pub leased : p.leases ≡ count_true p.held
  pub shared : p.leases + length queue ≡ p.count

Linked-rest :
    (next : List ℕ) (tail a : ℕ) (rest : List ℕ)
    → Linked next tail (a ∷ rest)
    → Linked next tail rest
Linked-rest next tail a [] h = tt
Linked-rest next tail a (b ∷ rest) h = h.1

-- The tail is in a queue that is not empty.
tail_in :
    (P : ℕ → Type 0) (next : List ℕ) (tail b : ℕ) (rest : List ℕ)
    → Linked next tail (b ∷ rest)
    → All P (b ∷ rest)
    → P tail
tail_in P next tail b [] h all = subst P h all.0
tail_in P next tail b (c ∷ rest) h all = tail_in P next tail c rest h.1 all.1

Linked-put :
    (next : List ℕ) (tail id : ℕ) (queue : List ℕ)
    → tail < length next
    → Distinct queue
    → Linked next tail queue
    → Linked (set next tail id) id (queue ++ (id ∷ []))
Linked-put next tail id [] l d h = refl
Linked-put next tail id (a ∷ []) l d h =
    (ap (λ x. get_or (set next tail id) x 0) h ∙ get_or-set_self next tail id 0 l, refl)
Linked-put next tail id (a ∷ b ∷ rest) l d h = (
  get_or-set_ne next tail a id 0 (λ e. tail_in (λ y. a ≢ y) next tail b rest h.1 d.0 (sym e)) ∙ h.0,
  Linked-put next tail id (b ∷ rest) l d.1 h.1,
)

Free-taken :
    (n id : ℕ) (held : List Bool) (queue : List ℕ)
    → All (λ y. id ≢ y) queue
    → All (Free n held) queue
    → All (Free n (set held id true)) queue
Free-taken n id held [] d h = tt
Free-taken n id held (a ∷ rest) d h =
    ((h.0.0, get_or-set_ne held id a true false d.0 ∙ h.0.1), Free-taken n id held rest d.1 h.1)

-- A buffer that a lease holds is none of those.
apart :
    (n id : ℕ) (held : List Bool) (queue : List ℕ)
    → get_or held id false ≡ true
    → All (Free n held) queue
    → All (λ y. y ≢ id) queue
apart n id held [] e h = tt
apart n id held (a ∷ rest) e h = (λ same. absurd (clash a same h.0.1), apart n id held rest e h.1)
  where
    clash : (a : ℕ) → a ≡ id → get_or held a false ≡ false → ⊥
    clash a same f = cc (ap (λ x. get_or held x false) same)

Free-put :
    (n id : ℕ) (held : List Bool) (queue : List ℕ)
    → All (λ y. y ≢ id) queue
    → All (Free n held) queue
    → All (Free n (set held id false)) queue
Free-put n id held [] d h = tt
Free-put n id held (a ∷ rest) d h = (
  (h.0.0, get_or-set_ne held id a false false (λ e. d.0 (sym e)) ∙ h.0.1),
  Free-put n id held rest d.1 h.1,
)

pub put-IsOrdered :
    (p : Provided) (queue : List ℕ) (id : ℕ)
    → get_or p.held id false ≡ true
    → IsOrdered p queue
    → IsOrdered (put id p) (queue ++ (id ∷ []))
unfolding put
put-IsOrdered p queue id e v =
    let here = set_flag_lt p.held id e in
    let others = apart p.count id p.held queue e v.free in
    let fewer = count_true_cleared p.held id e in
    record {
      links =
          Linked-put p.next p.tail id queue (omega (arith, v.next_length, v.tail_below)) v.distinct
            v.links;
      free =
          All-append (Free p.count (set p.held id false)) queue (id ∷ [])
            (Free-put p.count id p.held queue others v.free)
            ((omega (arith, here, v.held_length), get_or-set_self p.held id false false here), tt);
      distinct = Distinct-append_one queue id v.distinct others;
      held_length = length-set p.held id false ∙ v.held_length;
      next_length = length-set p.next p.tail id ∙ v.next_length;
      tail_below = omega (arith, here, v.held_length);
      leased = omega (arith, v.leased, fewer);
      shared = omega (arith, v.leased, fewer, v.shared, length-append queue (id ∷ []));
    }

-- What a decoded buffer leaves.
abbrev pub taken : ℕ → Provided → Provided
taken id p = record p { held = set p.held id true; leases = p.leases + 1 }

pub taken-IsOrdered :
    (p : Provided) (id : ℕ) (queue : List ℕ)
    → IsOrdered p (id ∷ queue)
    → IsOrdered (taken id p) queue
taken-IsOrdered p id queue v =
    let more = count_true_marked p.held id (omega (arith, v.free.0.0, v.held_length)) v.free.0.1 in
    record {
      links = Linked-rest p.next p.tail id queue v.links;
      free = Free-taken p.count id p.held queue v.distinct.0 v.free.1;
      distinct = v.distinct.1;
      held_length = length-set p.held id true ∙ v.held_length;
      next_length = v.next_length;
      tail_below = v.tail_below;
      leased = omega (arith, v.leased, more);
      shared = omega (arith, v.shared);
    }

buffer_of-with_buffer : (flags id : ℕ) → buffer_of (with_buffer flags id) ≡ id
buffer_of-with_buffer flags id = omega arith

has_buffer-with_buffer : (flags id : ℕ) → has_buffer (with_buffer flags id) ≡ has_buffer flags
has_buffer-with_buffer flags id = ap (λ n. n == 1) (omega arith)

-- The oldest buffer of the queue is decoded.
pub take_accepts :
    (p : Provided) (flags id size : ℕ)
    → has_buffer flags ≡ true
    → buffer_of flags ≡ id
    → Free p.count p.held id
    → size ≤ p.size
    → take true flags size p ≡ ok (record { id = id; bytes = size }, taken id p)
unfolding take
take_accepts p flags id size b e f s =
    subst (λ i. take true flags size p ≡ ok (record { id = i; bytes = size }, taken i p)) e
      (ground (arith, b, subst (Free p.count p.held) (sym e) f))

pub take-with_buffer :
    (p : Provided) (flags id size : ℕ) (queue : List ℕ)
    → has_buffer flags ≡ true
    → IsOrdered p (id ∷ queue)
    → size ≤ p.size
    → take true (with_buffer flags id) size p ≡ ok (record { id = id; bytes = size }, taken id p)
take-with_buffer p flags id size queue b v s =
    take_accepts p (with_buffer flags id) id size (has_buffer-with_buffer flags id ∙ b)
      (buffer_of-with_buffer flags id) v.free.0 s
