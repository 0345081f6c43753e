-- ===== src/Frame/Layout.antt =====
-- The places of a frame and of its allocator, and what is freed.
use snowy.Prelude.{
  ℕ, ◌+◌, ◌-◌, ◌*◌, ◌/◌, ◌^◌, ◌<◌, ◌≤◌, ◌≡◌, refl, sym, ap, subst, Bool, true, false, none, some,
  ltb, ==_refl, if◌then◌else◌, add_size, arith,
}
use snowy.Syscalls.{sub_wide}
use snowy.Fault.{bad_alloc, Result, ok, err, ◌>>◌, throw_if}
use snowy.Frame.{Memory, size_max, slots, new, delete}

-- A number of bytes whose rounding does not wrap.
slots_exact : (b n : ℕ) → n + b ≤ 2 ^ 64 → slots b n ≡ (n + b - 1) / b
unfolding slots
slots_exact b n h = ap (λ x. x / b) (omega arith)

covers : (n b : ℕ) → 0 < b → n ≤ (n + b - 1) / b * b
covers n b h = grind arith

fewer : (n b : ℕ) → 0 < b → (n + b - 1) / b ≤ n
fewer n b h = grind arith

sum_mul : (x y b : ℕ) → (x + y) * b ≡ x * b + y * b
sum_mul x y b = grind arith

-- What `new` has given: the allocator that it was handed is found, and all its blocks are freed.
abbrev pub Placed : {A : Type 0} → ℕ → ℕ → ℕ → A → Result (Memory A) → Type 0
Placed block_size saved_size size source (err f) =
    (f ≡ bad_alloc) × (size_max < size + block_size + saved_size)
Placed block_size saved_size size source (ok m) =
    (delete block_size saved_size m size ≡ some (source, m.blocks))
    × (size ≤ m.saved_at * block_size)
    × (m.saved_at * block_size + saved_size ≤ m.blocks * block_size)

module _ {A : Type 0} (block_size saved_size size : ℕ) (blocked : 0 < block_size)
    (small : block_size + saved_size ≤ size_max) (source : A) where
  abbrev memory : Memory A
  memory = record {
    blocks = add_size (slots block_size size) (slots block_size saved_size);
    saved_at = slots block_size size;
    saved = source;
  }

  allocated :
      size + block_size + saved_size ≤ size_max
      → Placed block_size saved_size size source (ok memory)
  unfolding delete
  allocated h =
      let frame = slots_exact block_size size (omega (arith, h, small)) in
      let behind = slots_exact block_size saved_size (omega (arith, small)) in
      let frame_fits = covers size block_size blocked in
      let saved_fits = covers saved_size block_size blocked in
      let exact : memory.blocks ≡ slots block_size size + slots block_size saved_size = omega (
        arith,
        frame,
        behind,
        fewer size block_size blocked,
        fewer saved_size block_size blocked,
        h,
      ) in
      (
        ap (λ (b : Bool). if b then some (source, memory.blocks) else none)
            (==_refl (slots block_size size)),
        subst (λ n. size ≤ n * block_size) (sym frame) frame_fits,
        subst (λ n. slots block_size size * block_size + saved_size ≤ n * block_size) (sym exact)
            (omega (
              arith,
              sum_mul (slots block_size size) (slots block_size saved_size) block_size,
              subst (λ n. saved_size ≤ n * block_size) (sym behind) saved_fits,
            )),
      )

  limit_exact :
      sub_wide (sub_wide size_max block_size) saved_size ≡ size_max - block_size - saved_size
  limit_exact = omega (arith, small)

-- For blocks of at least one byte and an allocator and a block that `size_t` has room for: `new` throws
-- `bad_alloc` only when the frame, a block and an allocator exceed the range of `size_t`. Otherwise
-- `delete` of that memory with the size of the frame finds the allocator that was stored, where it
-- was stored, and frees all blocks that were allocated; the frame ends before the allocator, and the
-- allocator ends within those blocks.
pub new-Placed :
    {A : Type 0} (block_size saved_size size : ℕ) (source : A)
    → 0 < block_size
    → block_size + saved_size ≤ size_max
    → Placed block_size saved_size size source (new block_size saved_size size source)
unfolding new
new-Placed block_size saved_size size source blocked small =
    placed (ltb (sub_wide (sub_wide size_max block_size) saved_size) size) refl
  where
    placed :
        (b : Bool)
        → b ≡ ltb (sub_wide (sub_wide size_max block_size) saved_size) size
        → Placed block_size saved_size size source
            (throw_if b bad_alloc >> ok (memory block_size saved_size size blocked small source))
    placed true e =
        (refl, ground (arith, limit_exact block_size saved_size size blocked small source))
    placed false e =
        allocated block_size saved_size size blocked small source
          (ground (arith, limit_exact block_size saved_size size blocked small source))
