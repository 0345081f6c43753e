-- ===== src/Frame.antt =====
-- include/snowy/detail/frame.hpp: a coroutine frame with the allocator that it came from stored
-- behind it. Sizes are `size_t`. A block is the unit of the rebound allocator: `block_size` is
-- `sizeof(block)` and `saved_size` is `sizeof(A)`.
pub mod Layout
mod Tests
use snowy.Prelude.{
  ℕ, ◌+◌, ◌-◌, ◌*◌, ◌/◌, ◌%◌, ◌^◌, ◌<◌, Bool, true, false, Option, none, some, ltb, ◌==◌,
  if◌then◌else◌, add_size,
}
use snowy.Syscalls.{sub_wide}
use snowy.Fault.{bad_alloc, Result, ok, err, ◌>>=◌, ◌>>◌, throw_if}

-- Memory from an allocator: how many blocks it has, and where an allocator was constructed in it.
pub record Memory (A : Type 0) : Type 0 where
  pub blocks : ℕ
  pub saved_at : ℕ
  pub saved : A

abbrev pub size_max : ℕ
size_max = 2 ^ 64 - 1

unfoldable pub slots : ℕ → ℕ → ℕ
slots block_size size = (size + block_size - 1) % 2 ^ 64 / block_size

module _ (block_size saved_size : ℕ) where
  module _ {A : Type 0} where
    -- `operator new`, whose allocation of blocks succeeds.
    unfoldable pub new : ℕ → A → Result (Memory A)
    new size source = do
      throw_if (ltb (sub_wide (sub_wide size_max block_size) saved_size) size) bad_alloc
      ok (record {
        blocks = add_size (slots block_size size) (slots block_size saved_size);
        saved_at = slots block_size size;
        saved = source;
      })

    -- `operator delete`: the allocator that it finds, none where no allocator was constructed, and
    -- the number of blocks that it gives back to it.
    unfoldable pub delete : Memory A → ℕ → Option (A × ℕ)
    delete memory size =
        if memory.saved_at == slots block_size size
        then some (memory.saved, add_size (slots block_size size) (slots block_size saved_size))
        else none
