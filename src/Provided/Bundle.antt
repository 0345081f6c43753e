-- ===== src/Provided/Bundle.antt =====
-- What the decoding of a bundle gives its consumer.
use snowy.Prelude.{
  ℕ, zero, suc, ◌+◌, ◌-◌, ◌*◌, ◌/◌, ◌<◌, ◌≤◌, lt→ltb, ==_eq, get_or-set_self, ◌≡◌, refl, sym, ap,
  ◌∙◌, subst, Bool, true, false, ◌||◌, List, [], ◌∷◌, ◌++◌, map, ltb, ◌==◌, if_cases, length,
  get_or, All, append_assoc, arith, min, length-append,
}
use snowy.Fault.{Result, ok, ◌>>◌, throw_if, runtime_error}
use snowy.Provided.{
  Provided, Chunk, Turn, take, buffer_of, has_buffer, with_buffer, consume, first_turn, other_turns,
  parts_loop, parts_of, each,
}
use snowy.Provided.Order.{IsOrdered, Linked, taken, taken-IsOrdered, take-with_buffer}
use snowy.Provided.Published.{Behind, stays, published_later, consume-Behind}

abbrev pub bytes_of : List Chunk → ℕ
bytes_of [] = 0
bytes_of (c ∷ cs) = c.bytes + bytes_of cs

-- The bytes that fit into some buffers of one size.
abbrev room : ℕ → ℕ → ℕ
room zero each_size = 0
room (suc n) each_size = each_size + room n each_size

-- Whether one of the first `n` calls of the consumer throws.
abbrev pub any_throws : ℕ → List Turn → Bool
any_throws zero turns = false
any_throws (suc n) turns = (first_turn turns).throws || any_throws n (other_turns turns)

-- A bundle that was decoded into chunks, the consumer having failed before or not.
pub record IsDecoded (p : Provided) (ids rest : List ℕ) (size : ℕ) (turns : List Turn)
    (failing : Bool) (r : Result (List Chunk × Bool × Provided)) : Type 0 where
  pub chunks : List Chunk
  pub after : Provided
  pub result : r ≡ ok (chunks, failing || any_throws (length ids) turns, after)
  pub in_order : map (λ (c : Chunk). c.id) chunks ≡ ids
  pub all_bytes : bytes_of chunks ≡ size
  pub each_fits : All (λ (c : Chunk). c.bytes ≤ p.size) chunks
  pub behind : Behind p rest after

abbrev Starts : ℕ → List ℕ → Type 0
Starts id [] = Unit
Starts id (a ∷ rest) = id ≡ a

Starts-next :
    (next : List ℕ) (tail a : ℕ) (ids rest : List ℕ)
    → Linked next tail (a ∷ (ids ++ rest))
    → Starts (get_or next a 0) ids
Starts-next next tail a [] rest h = tt
Starts-next next tail a (b ∷ ids) rest h = h.0

-- One round of the loop, when nothing in it is refused.
parts_loop_round :
    (k flags id size : ℕ) (turns : List Turn) (failing : Bool) (p p' : Provided) (c : Chunk)
    (cs : List Chunk) (b : Bool) (p'' : Provided)
    → id < p.count
    → take true (with_buffer flags id) (min size p.size) p ≡ ok (c, p')
    → parts_loop k true flags
        (get_or p.next id 0)
        (size - min size p.size)
        (other_turns turns)
        (consume failing (first_turn turns) c.id p').0
        (consume failing (first_turn turns) c.id p').1
      ≡ ok (cs, b, p'')
    → parts_loop (suc k) true flags id size turns failing p ≡ ok (c ∷ cs, b, p'')
unfolding parts_loop
parts_loop_round k flags id size turns failing p p' c cs b p'' below t l =
    rw (lt→ltb id p.count below) (rw t (rw l refl))

failing_after :
    (failing : Bool) (t : Turn) (id : ℕ) (p : Provided) (later : Bool)
    → (consume failing t id p).0 || later ≡ failing || (t.throws || later)
failing_after true t id p later = refl
failing_after false t id p later = refl

sizes-each :
    (s : ℕ) (cs : List Chunk) (t : ℕ)
    → s ≡ t
    → All (λ (c : Chunk). c.bytes ≤ s) cs
    → All (λ (c : Chunk). c.bytes ≤ t) cs
sizes-each s cs t e h = subst (λ u. All (λ (c : Chunk). c.bytes ≤ u) cs) e h

pub taken_held :
    (p : Provided) (id : ℕ) (queue : List ℕ)
    → IsOrdered p (id ∷ queue)
    → get_or (taken id p).held id false ≡ true
taken_held p id queue v =
    get_or-set_self p.held id true false (omega (arith, v.free.0.0, v.held_length))

longer_bundle :
    (k flags size : ℕ) (turns : List Turn) (failing : Bool) (p : Provided) (a : ℕ)
    (ids rest : List ℕ)
    → k ≡ length ids
    → has_buffer flags ≡ true
    → IsOrdered p (a ∷ (ids ++ rest))
    → (c : Behind (taken a p) (ids ++ rest) (consume failing (first_turn turns) a (taken a p)).1)
    → IsDecoded
        (consume failing (first_turn turns) a (taken a p)).1
        ids
        (rest ++ c.more)
        (size - min size p.size)
        (other_turns turns)
        (consume failing (first_turn turns) a (taken a p)).0
        (parts_loop k true flags
          (get_or p.next a 0)
          (size - min size p.size)
          (other_turns turns)
          (consume failing (first_turn turns) a (taken a p)).0
          (consume failing (first_turn turns) a (taken a p)).1)
    → IsDecoded p
        (a ∷ ids)
        rest
        size
        turns
        failing
        (parts_loop (suc k) true flags a size turns failing p)
longer_bundle k flags size turns failing p a ids rest e b v c d =
    let bytes = min size p.size in
    let chunk : Chunk = record { id = a; bytes = bytes } in
    record {
      chunks = chunk ∷ d.chunks;
      after = d.after;
      result =
          parts_loop_round k flags a size turns failing p (taken a p) chunk d.chunks _ d.after
            v.free.0.0 (take-with_buffer p flags a bytes (ids ++ rest) b v (omega arith)) d.result
          ∙ ap (λ (x : Bool). ok (chunk ∷ d.chunks, x, d.after))
              (failing_after failing (first_turn turns) a (taken a p)
                (any_throws (length ids) (other_turns turns)));
      in_order = ap (λ (l : List ℕ). a ∷ l) d.in_order;
      all_bytes = omega (arith, d.all_bytes);
      each_fits = (omega arith, sizes-each _ d.chunks p.size c.same_size d.each_fits);
      behind =
          published_later p (consume failing (first_turn turns) a (taken a p)).1 d.after rest c.more
            c.published c.same_size c.same_count d.behind;
    }

parts_loop-IsDecoded :
    (ids rest : List ℕ) (flags id size : ℕ) (turns : List Turn) (failing : Bool) (p : Provided)
    → has_buffer flags ≡ true
    → IsOrdered p (ids ++ rest)
    → Starts id ids
    → size ≤ room (length ids) p.size
    → IsDecoded p ids rest size turns failing
        (parts_loop (length ids) true flags id size turns failing p)
unfolding parts_loop
parts_loop-IsDecoded [] rest flags id size turns failing p b v s h = record {
  chunks = [];
  after = p;
  result = ap (λ (x : Bool). ok ([], x, p)) (nothing_more failing);
  in_order = refl;
  all_bytes = omega arith;
  each_fits = tt;
  behind = stays p rest v;
}
  where
    nothing_more : (x : Bool) → x ≡ x || false
    nothing_more true = refl
    nothing_more false = refl
parts_loop-IsDecoded (a ∷ ids) rest flags id size turns failing p b v s h =
    let next_turn = consume failing (first_turn turns) a (taken a p) in
    let c =
      consume-Behind failing (first_turn turns) a (taken a p) (ids ++ rest)
        (taken_held p a (ids ++ rest) v) (taken-IsOrdered p a (ids ++ rest) v) in
    subst
      (λ i.
        IsDecoded p (a ∷ ids) rest size turns failing
          (parts_loop (suc (length ids)) true flags i size turns failing p))
      (sym s)
      (longer_bundle (length ids) flags size turns failing p a ids rest refl b v c (
        parts_loop-IsDecoded ids (rest ++ c.more) flags (get_or p.next a 0) (size - min size p.size)
          (other_turns turns) next_turn.0 next_turn.1 b
          (subst (IsOrdered next_turn.1) (append_assoc ids rest c.more) c.ordered)
          (Starts-next p.next p.tail a ids rest v.links)
          (room_left size p.size next_turn.1.size (length ids) c.same_size h)))
  where
    room_left : (size s t k : ℕ) → t ≡ s → size ≤ s + room k s → size - min size s ≤ room k t
    room_left size s t k e h = subst (λ u. size - min size s ≤ room k u) (sym e) (omega arith)

room_mul : (n s : ℕ) → room n s ≡ n * s
room_mul zero s = omega arith
room_mul (suc n) s = grind (arith, room_mul n s)

below_next : (m s : ℕ) → 0 < s → m < (m / s + 1) * s
below_next m s h = grind arith

parts_enough : (size s : ℕ) → 0 < s → size ≤ room (parts_of size s) s
parts_enough size s h =
    if_cases (λ n. size ≤ room n s) (size == 0) 1 ((size - 1) / s + 1)
      (λ e. omega (arith, ==_eq size 0 e))
      (λ e. omega (arith, room_mul ((size - 1) / s + 1) s, below_next (size - 1) s h))

-- Decode a bundle of the buffers that the kernel took first, `a` and then `ids`, as many as its bytes
-- need, in a ring whose buffers are in place, with the owner's thread and a completion that names
-- `a`. Whatever the consumer returns and whether it throws, nothing is refused: the chunks are those
-- buffers in the order of publication, they hold all the bytes and none more than a buffer has, a
-- failure is reported when a call of the consumer throws, and what goes back meanwhile was published
-- behind all others.
pub each-IsDecoded :
    (a : ℕ) (ids rest : List ℕ) (flags size : ℕ) (turns : List Turn) (p : Provided)
    → has_buffer flags ≡ true
    → buffer_of flags ≡ a
    → IsOrdered p (a ∷ (ids ++ rest))
    → 0 < p.size
    → length (a ∷ ids) ≡ parts_of size p.size
    → IsDecoded p (a ∷ ids) rest size turns false (each true flags size turns p)
unfolding each
each-IsDecoded a ids rest flags size turns p b e v s l =
    subst
      (λ n. IsDecoded p (a ∷ ids) rest size turns false (
        throw_if (ltb p.count n) runtime_error
        >> parts_loop n true flags (buffer_of flags) size turns false p))
      l
      (subst
        (λ t. IsDecoded p (a ∷ ids) rest size turns false (
          throw_if t runtime_error
          >> parts_loop (suc (length ids)) true flags (buffer_of flags) size turns false p))
        (sym (not_more p.count (length ids) (omega (arith, v.shared, length-append ids rest))))
        (parts_loop-IsDecoded (a ∷ ids) rest flags (buffer_of flags) size turns false p b v e
          (subst (λ n. size ≤ room n p.size) (sym l) (parts_enough size p.size s))))
  where
    not_more : (c n : ℕ) → suc n ≤ c → ltb c (suc n) ≡ false
    not_more c n h = ground arith
