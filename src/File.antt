-- ===== src/File.antt =====
-- src/file.cpp and include/snowy/file.hpp: positional transfers of a regular file on Linux, and
-- `write_all`. The system call is a parameter: it says how many bytes it took of those it was given,
-- or which error there was. `canceled` says whether cancellation is seen at a given offset.
pub mod Written
pub mod Handles
mod Tests
use snowy.Prelude.{
  ℕ, zero, suc, ◌+◌, ◌-◌, ◌%◌, ◌^◌, min, Bool, true, false, ◌||◌, Option, none, some, List, [], ◌∷◌,
  ltb, ◌==◌, if◌then◌else◌, length, take, drop,
}

pub data Error : Type 0 where
  operation_canceled : Error
  offset_overflow : Error
  -- `io_error`: the file takes nothing any more.
  no_progress : Error
  errno : ℕ → Error
  -- The model's own: the loop was not given enough rounds.
  unfinished : Error

pub data Reply : Type 0 where
  moved : ℕ → Reply
  failed : ℕ → Reply

abbrev pub int_max : ℕ
int_max = 2147483647

abbrev pub int64_max : ℕ
int64_max = 9223372036854775807

-- The contents of a file, by position.
abbrev pub Contents : Type 0
Contents = ℕ → ℕ

unfoldable pub write_bytes : Contents → ℕ → List ℕ → Contents
write_bytes c offset [] = c
write_bytes c offset (b ∷ bs) = write_bytes (λ p. if p == offset then b else c p) (offset + 1) bs

-- How many bytes a transfer asks for.
abbrev pub length_of : List ℕ → ℕ
length_of buffer = min (length buffer) int_max

pub record Outcome : Type 0 where
  pub error : Option Error
  pub moved_bytes : ℕ
  pub contents : Contents

abbrev pub refused : Error → Contents → Outcome
refused e c = record { error = some e; moved_bytes = 0; contents = c }

abbrev pub wrote : List ℕ → ℕ → Contents → Reply → Outcome
wrote buffer offset c (failed e) = refused (errno e) c
wrote buffer offset c (moved n) = record {
  error = none;
  moved_bytes = n;
  contents = write_bytes c offset (take n buffer);
}

module _ (write_call : ℕ → List ℕ → Reply) (canceled : ℕ → Bool) where
  -- `transfer` in the direction of writing.
  unfoldable pub transfer : Contents → List ℕ → ℕ → Outcome
  transfer c buffer offset =
      if canceled offset
      then refused operation_canceled c
      else if ltb int64_max offset || ltb (int64_max - offset) (length_of buffer)
      then refused offset_overflow c
      else if length_of buffer == 0
      then record { error = none; moved_bytes = 0; contents = c }
      else wrote buffer offset c (write_call offset (take (length_of buffer) buffer))

  -- `while (!buffer.empty())` of `write_all`, on so many rounds; the offset is 64 bits wide.
  unfoldable pub write_loop : ℕ → Contents → List ℕ → ℕ → Option Error × Contents
  write_loop fuel c [] offset = (none, c)
  write_loop zero c (b ∷ bs) offset = (some unfinished, c)
  write_loop (suc fuel) c (b ∷ bs) offset =
      let o = transfer c (b ∷ bs) offset in
      let rest =
        write_loop fuel o.contents (drop o.moved_bytes (b ∷ bs))
          ((offset + o.moved_bytes) % 2 ^ 64) in
      elim o.error [
        | some e ↦ (some e, o.contents)
        | none ↦ (if o.moved_bytes == 0 then (some no_progress, o.contents) else rest)
      ]

  unfoldable pub write_all : Contents → List ℕ → ℕ → Option Error × Contents
  write_all c buffer offset = write_loop (length buffer) c buffer offset
