-- ===== src/Frame/Tests.antt =====
-- Tests of the frames, and the theorem at a concrete input.
use snowy.Prelude.{ℕ, ◌≡◌, refl, some, arith}
use snowy.Fault.{ok}
use snowy.Frame.{Memory, slots, new, delete}
use snowy.Frame.Layout.{Placed, new-Placed}

abbrev memory : Memory ℕ
memory = record { blocks = 8; saved_at = 7; saved = 42 }

-- 100 bytes and an allocator of 8 in blocks of 16.
allocated : new 16 8 100 42 ≡ ok memory
unfolding new slots
allocated = refl

freed : delete 16 8 memory 100 ≡ some (42, 8)
unfolding delete slots
freed = refl

new-Placed_example : Placed {A = ℕ} 16 8 100 42 (new 16 8 100 42)
new-Placed_example = new-Placed 16 8 100 42 (omega arith) (omega arith)
