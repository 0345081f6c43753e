-- ===== src/Registered/Regions.antt =====
-- What a table of buffers answers after an update, and which transfers are in range.
use snowy.Prelude.{
  ℕ, zero, suc, ◌+◌, ◌-◌, ◌<◌, ◌≤◌, ◌≡◌, refl, sym, ◌∙◌, ap, ap₂, lt→ltb, ◌↔◌, Bool, true, false,
  ◌&&◌, Option, none, some, List, [], ◌∷◌, ◌++◌, ltb, if◌then◌else◌, arith, length, get_or, take,
  drop, length-append, take-append-drop, length-take, length-drop, is_none, leb, Bool-cases, inl,
  inr, ltb→lt,
}
use snowy.File.{int_max, int64_max}
use snowy.Syscalls.{Vector}
use snowy.Fault.{Result, ok, err, count, is_ok, logic_error, out_of_range}
use snowy.Registered.Ops.{
  Sqe, Call, read, write, read_fixed, write_fixed, bounds, transfer, transfer_call, prepared,
}
use snowy.Registered.Buffers.{Buffers, vacant, copy_n, update, at_slot}

pub bounds_iff :
    (size offset : ℕ)
    → (is_ok (bounds size offset) ≡ true) ↔ ((size ≤ int_max) × (offset + size ≤ int64_max))
unfolding bounds
bounds_iff size offset = ground arith

-- What a call of liburing transfers: its descriptor, region and position, whether it writes, and the
-- slot of a registered buffer; none for a call that transfers nothing there.
abbrev pub as_transfer : Call → Option (ℕ × Vector × ℕ × Bool × Option ℕ)
as_transfer (read fd region offset) = some (fd, region, offset, false, none)
as_transfer (write fd region offset) = some (fd, region, offset, true, none)
as_transfer (read_fixed fd region offset slot) = some (fd, region, offset, false, some slot)
as_transfer (write_fixed fd region offset slot) = some (fd, region, offset, true, some slot)
as_transfer _ = none

-- An entry without any flag that the source reads or sets.
abbrev pub Plain : Sqe → Type 0
Plain s =
    (s.fixed_file ≡ false)
    × (s.skip_success ≡ false)
    × (s.buffer_select ≡ false)
    × (s.io_link ≡ false)
    × (s.io_hardlink ≡ false)
    × (s.io_drain ≡ false)

described :
    (fd : ℕ) (region : Vector) (offset : ℕ) (is_write : Bool) (slot : Option ℕ)
    → as_transfer (transfer_call fd region offset is_write slot)
      ≡ some (fd, region, offset, is_write, slot)
described fd region offset true (some slot) = refl
described fd region offset true none = refl
described fd region offset false (some slot) = refl
described fd region offset false none = refl

-- A call that transfers something is told by what it transfers.
abbrev call_for : Option (ℕ × Vector × ℕ × Bool × Option ℕ) → Call → Call
call_for none c = c
call_for (some (fd, region, offset, is_write, slot)) c =
    transfer_call fd region offset is_write slot

call_told : (c : Call) → call_for (as_transfer c) c ≡ c
call_told (read fd region offset) = refl
call_told (write fd region offset) = refl
call_told (read_fixed fd region offset slot) = refl
call_told (write_fixed fd region offset slot) = refl
call_told _ = refl

prepared-Plain : (c : Call) (s : Sqe) → s ≡ prepared c → Plain s
prepared-Plain c s e = (
  ap (λ (x : Sqe). x.fixed_file) e,
  ap (λ (x : Sqe). x.skip_success) e,
  ap (λ (x : Sqe). x.buffer_select) e,
  ap (λ (x : Sqe). x.io_link) e,
  ap (λ (x : Sqe). x.io_hardlink) e,
  ap (λ (x : Sqe). x.io_drain) e,
)

Plain-prepared : (c : Call) (s : Sqe) → s.call ≡ c → Plain s → s ≡ prepared c
Plain-prepared c s e p =
    let (fixed, skip, select, soft, hard, drain) = p in
    cc (e, fixed, skip, select, soft, hard, drain)

-- The entry that a transfer which is in range prepares.
transfer_prepares :
    (fd : ℕ) (region : Vector) (offset : ℕ) (is_write : Bool) (slot : Option ℕ) (sqe : Sqe)
    → (transfer fd region offset is_write slot ≡ ok sqe) ↔ (
        (region.len ≤ int_max)
        × (offset + region.len ≤ int64_max)
        × (sqe ≡ prepared (transfer_call fd region offset is_write slot)))
unfolding transfer bounds
transfer_prepares fd region offset is_write slot sqe = ground arith

-- A transfer is prepared exactly when its size fits an `int` and it ends in the range of a signed
-- file offset; then its entry reads or writes, as it was asked, the region at the position of the descriptor, through
-- the slot if there is one, and has no flag.
pub transfer_iff :
    (fd : ℕ) (region : Vector) (offset : ℕ) (is_write : Bool) (slot : Option ℕ) (sqe : Sqe)
    → (transfer fd region offset is_write slot ≡ ok sqe) ↔ (
        (region.len ≤ int_max)
        × (offset + region.len ≤ int64_max)
        × (as_transfer sqe.call ≡ some (fd, region, offset, is_write, slot))
        × Plain sqe)
transfer_iff fd region offset is_write slot sqe =
    let call = transfer_call fd region offset is_write slot in
    let (there, back) = transfer_prepares fd region offset is_write slot sqe in
    (
      λ e.
          let (fits, ends, entry) = there e in
          (
            fits,
            ends,
            ap (λ (x : Sqe). as_transfer x.call) entry ∙ described fd region offset is_write slot,
            prepared-Plain call sqe entry,
          ),
      λ h. back (
        h.0,
        h.1,
        Plain-prepared call sqe (sym (call_told sqe.call) ∙ ap (λ x. call_for x sqe.call) h.2) h.3,
      ),
    )

module _ {ℓ} {A : Type ℓ} where
  get_or-take :
      (k : ℕ) (xs ys : List A) (i : ℕ) (d : A)
      → i < k
      → k ≤ length xs
      → get_or (take k xs ++ ys) i d ≡ get_or xs i d
  get_or-take zero xs ys i d h l = absurd (omega arith)
  get_or-take (suc k) [] ys i d h l = absurd (omega arith)
  get_or-take (suc k) (x ∷ xs) ys zero d h l = refl
  get_or-take (suc k) (x ∷ xs) ys (suc i) d h l =
      get_or-take k xs ys i d (omega arith) (omega arith)

  get_or-behind :
      (k : ℕ) (xs ys : List A) (i : ℕ) (d : A)
      → k ≤ length xs
      → get_or (take k xs ++ ys) (k + i) d ≡ get_or ys i d
  get_or-behind zero xs ys i d l = ap (λ j. get_or ys j d) (omega arith)
  get_or-behind (suc k) [] ys i d l = absurd (omega arith)
  get_or-behind (suc k) (x ∷ xs) ys i d l =
      ap (λ j. get_or (x ∷ (take k xs ++ ys)) j d) (succ k i)
      ∙ get_or-behind k xs ys i d (omega arith)
    where
      succ : (k i : ℕ) → suc k + i ≡ suc (k + i)
      succ k i = omega arith

  get_or-drop : (k : ℕ) (xs : List A) (i : ℕ) (d : A) → get_or (drop k xs) i d ≡ get_or xs (k + i) d
  get_or-drop zero xs i d = ap (λ j. get_or xs j d) (omega arith)
  get_or-drop (suc k) [] i d = refl
  get_or-drop (suc k) (x ∷ xs) i d = get_or-drop k xs i d ∙ ap (λ j. get_or (x ∷ xs) j d) (succ k i)
    where
      succ : (k i : ℕ) → suc (k + i) ≡ suc k + i
      succ k i = omega arith

-- The regions of a table after its first `n` replacements from `offset` on.
abbrev spliced : List Vector → ℕ → List Vector → ℕ → List Vector
spliced old offset new n = take offset old ++ copy_n new n (drop offset old)

module _ (old : List Vector) (offset : ℕ) (new : List Vector) (n : ℕ)
    (fits : offset + length new ≤ length old) (partial : n ≤ length new) where
  length-spliced : length (spliced old offset new n) ≡ length old
  length-spliced = omega (
    arith,
    length-append (take offset old) (copy_n new n (drop offset old)),
    length-append (take n new) (drop n (drop offset old)),
    length-take offset old (omega arith),
    length-take n new partial,
    length-drop n (drop offset old),
    length-drop offset old,
  )

  get_or-spliced_before :
      (i : ℕ) → i < offset → get_or (spliced old offset new n) i vacant ≡ get_or old i vacant
  get_or-spliced_before i h =
      get_or-take offset old (copy_n new n (drop offset old)) i vacant h (omega arith)

  get_or-spliced_inside :
      (i : ℕ) → i < n → get_or (spliced old offset new n) (offset + i) vacant ≡ get_or new i vacant
  get_or-spliced_inside i h =
      get_or-behind offset old (copy_n new n (drop offset old)) i vacant (omega arith)
      ∙ get_or-take n new (drop n (drop offset old)) i vacant h partial

  get_or-spliced_after :
      (i : ℕ)
      → get_or (spliced old offset new n) (offset + (n + i)) vacant
        ≡ get_or old (offset + (n + i)) vacant
  get_or-spliced_after i =
      get_or-behind offset old (copy_n new n (drop offset old)) (n + i) vacant (omega arith)
      ∙ get_or-behind n new (drop n (drop offset old)) i vacant partial
      ∙ get_or-drop n (drop offset old) i vacant
      ∙ get_or-drop offset old (n + i) vacant

  get_or-spliced_else :
      (i : ℕ)
      → leb offset i && ltb i (offset + n) ≡ false
      → get_or (spliced old offset new n) i vacant ≡ get_or old i vacant
  get_or-spliced_else i h = elim (Bool-cases (ltb i offset)) [
    | inl e ↦ get_or-spliced_before i (ltb→lt i offset e)
    | inr e ↦
        let p : offset + (n + (i - (offset + n))) ≡ i = ground arith in
        ap (λ j. get_or (spliced old offset new n) j vacant) (sym p)
        ∙ get_or-spliced_after (i - (offset + n))
        ∙ ap (λ j. get_or old j vacant) p
  ]

-- What a table answers at a slot that is in range or not, with the region there.
abbrev pub answer_of : Bool → Vector → Result Vector
answer_of within region =
    if within then if is_none region.base then err logic_error else ok region else err out_of_range

at_slot-answer_of :
    (b : Buffers) (i : ℕ)
    → at_slot true b i ≡ answer_of (ltb i (length b.regions)) (get_or b.regions i vacant)
unfolding at_slot
at_slot-answer_of b i = ground arith

-- What an update that succeeds has found and done.
update-spliced :
    (b b' : Buffers) (offset : ℕ) (regions : List Vector) (n m : ℕ)
    → n ≤ length regions
    → update true b offset regions (count n) ≡ ok (m, b')
    → (offset + length regions ≤ length b.regions)
      × (m ≤ length regions)
      × (b'.regions ≡ spliced b.regions offset regions m)
unfolding update
update-spliced b b' offset [] n m h e = ground (arith, take-append-drop offset b.regions)
update-spliced b b' offset (r ∷ rs) n m h e = ground arith

-- After an update that succeeds, of which the kernel made the first `n` replacements: the table is
-- as long as it was, each of the slots `offset` to `offset + n - 1` answers with its new region, an
-- empty one with `logic_error`, and every other slot answers as before.
pub at_slot-update :
    (b b' : Buffers) (offset : ℕ) (regions : List Vector) (n m : ℕ)
    → n ≤ length regions
    → update true b offset regions (count n) ≡ ok (m, b')
    → (length b'.regions ≡ length b.regions)
      × ((i : ℕ) → i < m → at_slot true b' (offset + i) ≡ answer_of true (get_or regions i vacant))
      × ((i : ℕ)
          → leb offset i && ltb i (offset + m) ≡ false
          → at_slot true b' i ≡ at_slot true b i)
at_slot-update b b' offset regions n m h e =
    let s = update-spliced b b' offset regions n m h e in
    let as_long = ap length s.2 ∙ length-spliced b.regions offset regions m s.0 s.1 in
    (
      as_long,
      λ i below.
          at_slot-answer_of b' (offset + i)
          ∙ ap₂ answer_of
              (lt→ltb (offset + i) (length b'.regions) (omega (arith, as_long, s.0, s.1)))
              (ap (λ r. get_or r (offset + i) vacant) s.2
                ∙ get_or-spliced_inside b.regions offset regions m s.0 s.1 i below),
      λ i outside.
          at_slot-answer_of b' i
          ∙ ap₂ answer_of (ap (ltb i) as_long) (
              ap (λ r. get_or r i vacant) s.2
              ∙ get_or-spliced_else b.regions offset regions m s.0 s.1 i outside)
          ∙ sym (at_slot-answer_of b i),
    )
