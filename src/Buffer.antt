-- ===== src/Buffer.antt =====
-- The fixed slot storage inside include/snowy/channel.hpp and include/snowy/mailbox.hpp: the fields
-- `slots_`, `head_` and `size_`, the constructor that allocates it, the write of `push` and the
-- read of `pop`. Both classes hold the same code; a slot is an optional value.
pub mod Contents
use snowy.Prelude.{
  ℕ, ◌+◌, ◌-◌, ◌%◌, ◌^◌, Bool, true, false, Option, none, some, List, add_size, ◌==◌, get_or, set,
  length, replicate,
}

pub record Buffer (T : Type 0) : Type 0 where
  pub slots : List (Option T)
  pub head : ℕ
  pub size : ℕ

module _ {T : Type 0} where
  -- `slots_(capacity)`, with `head_` and `size_` zero.
  unfoldable pub allocate : ℕ → Buffer T
  allocate capacity = record { slots = replicate capacity none; head = 0; size = 0 }

  abbrev pub capacity : Buffer T → ℕ
  capacity b = length b.slots

  -- `size_ == slots_.size()`.
  abbrev pub is_full : Buffer T → Bool
  is_full b = b.size == capacity b

  -- `slots_[(head_ + size_) % slots_.size()].emplace(v); ++size_;`
  unfoldable pub put : Buffer T → T → Buffer T
  put b v = record b {
    slots = set b.slots (add_size b.head b.size % length b.slots) (some v);
    size = add_size b.size 1;
  }

  -- `if (size_)`: move the head slot out, reset it, advance `head_` and decrement `size_`.
  unfoldable pub take_front : Buffer T → Option T × Buffer T
  take_front b = elim (b.size == 0) [
    | true ↦ (none, b)
    | false ↦ (
      get_or b.slots b.head none,
      record {
        slots = set b.slots b.head none;
        head = add_size b.head 1 % length b.slots;
        size = b.size - 1;
      },
    )
  ]
