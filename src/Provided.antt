-- ===== src/Provided.antt =====
-- include/snowy/uring.hpp and src/uring_net.cpp: the ring of provided buffers, the leases on its
-- buffers (`chunk`), and the decoding of a completion that fills several (`each`). `ring` holds the
-- identifiers that were added to the ring and that the kernel has not yet taken, the oldest first.
pub mod Order
pub mod Lease
pub mod Published
pub mod Bundle
mod Tests
use snowy.Prelude.{
  ℕ, zero, suc, ◌+◌, ◌-◌, ◌*◌, ◌/◌, ◌%◌, ◌^◌, ◌<◌, Bool, true, false, not, ◌&&◌, ◌||◌, Option, none,
  some, List, [], ◌∷◌, ◌++◌, ltb, leb, ◌==◌, if◌then◌else◌, length, get_or, set, replicate, min,
}
use snowy.File.{int_max}
use snowy.Fault.{
  Fault, invalid_argument, runtime_error, system_error, Result, ok, err, ◌>>=◌, ◌>>◌, throw_if,
  check, Code, count, failed, verify,
}

pub record Provided : Type 0 where
  pub count : ℕ
  pub size : ℕ
  pub leases : ℕ
  pub held : List Bool
  pub next : List ℕ
  pub tail : ℕ
  pub is_set : Bool
  pub ring : List ℕ

abbrev pub max_entries : ℕ
max_entries = 32768

-- `std::has_single_bit`, by the bits that are left.
unfoldable pub single_bit : ℕ → ℕ → Bool
single_bit zero n = false
single_bit (suc bits) n =
    let rest = single_bit bits (n / 2) in
    if n == 1 then true else if n % 2 == 0 then rest else false

-- `capacity`, for a `size_t` of 64 bits.
unfoldable pub capacity : ℕ → ℕ → Result ℕ
capacity entries size = do
  throw_if
      (entries == 0
        || ltb max_entries entries
        || not (single_bit 32 entries)
        || size == 0
        || ltb int_max size
        || ltb ((2 ^ 64 - 1) / entries) size)
      invalid_argument
  ok (entries * size)

-- The loop that publishes buffers `i` to `i + n - 1` of `entries`: their successors, and the ring.
abbrev pub successors : ℕ → ℕ → ℕ → List ℕ
successors entries i zero = []
successors entries i (suc n) = (i + 1) % entries ∷ successors entries (i + 1) n

abbrev pub numbered : ℕ → ℕ → List ℕ
numbered i zero = []
numbered i (suc n) = i ∷ numbered (i + 1) n

unfoldable pub create : ℕ → ℕ → Code → Result Provided
create entries size code = do
  _ ← capacity entries size
  _ ← verify code
  ok (record {
    count = entries;
    size = size;
    leases = 0;
    held = replicate entries false;
    next = successors entries 0 entries;
    tail = entries - 1;
    is_set = false;
    ring = numbered 0 entries;
  })

-- A lease: the buffer's identifier, and the bytes in it.
pub record Chunk : Type 0 where
  pub id : ℕ
  pub bytes : ℕ

-- `flags >> IORING_CQE_BUFFER_SHIFT`, and the test of `IORING_CQE_F_BUFFER`.
abbrev pub buffer_of : ℕ → ℕ
buffer_of flags = flags / 2 ^ 16

abbrev pub has_buffer : ℕ → Bool
has_buffer flags = flags % 2 == 1

unfoldable pub take : Bool → ℕ → ℕ → Provided → Result (Chunk × Provided)
take owner flags size p = do
  check owner
  throw_if
      (not (has_buffer flags)
        || not (ltb (buffer_of flags) p.count)
        || get_or p.held (buffer_of flags) false
        || ltb p.size size)
      runtime_error
  ok (
    record { id = buffer_of flags; bytes = size },
    record p { held = set p.held (buffer_of flags) true; leases = p.leases + 1 },
  )

-- `put`, which ends by setting the event.
unfoldable pub put : ℕ → Provided → Provided
put id p = record p {
  held = set p.held id false;
  leases = p.leases - 1;
  next = set p.next p.tail id;
  tail = id;
  ring = p.ring ++ (id ∷ []);
  is_set = true;
}

-- One round of `available`: it returns, or it resets the event and waits.
unfoldable pub available : Provided → Bool × Provided
available p = if p.leases == p.count then (false, record p { is_set = false }) else (true, p)

-- A chunk is an identifier or nothing, `owner_` being null. Moving from one empties it; its
-- destructor and its move assignment, from another chunk, put what it holds.
unfoldable pub moved_from : Option Chunk → Option Chunk × Option Chunk
moved_from c = (c, none)

unfoldable pub release : Option Chunk → Provided → Provided
release none p = p
release (some c) p = put c.id p

unfoldable pub assign :
    Option Chunk → Option Chunk → Provided → Option Chunk × Option Chunk × Provided
unfolding release
assign mine other p = (other, none, release mine p)

-- A call of the consumer: the chunks that it returns, its own among them if it does not keep that,
-- and whether it throws. Only what is held can be returned.
pub record Turn : Type 0 where
  pub returns : List ℕ
  pub throws : Bool

unfoldable pub return_held : List ℕ → Provided → Provided
return_held [] p = p
return_held (id ∷ ids) p = return_held ids (if get_or p.held id false then put id p else p)

-- `if (!failure)`: the consumer runs; after a failure each chunk goes back where its scope ends.
abbrev pub consume : Bool → Turn → ℕ → Provided → Bool × Provided
consume true t id p = (true, put id p)
consume false t id p = (t.throws, return_held t.returns p)

abbrev pub first_turn : List Turn → Turn
first_turn [] = record { returns = []; throws = false }
first_turn (t ∷ ts) = t

abbrev pub other_turns : List Turn → List Turn
other_turns [] = []
other_turns (t ∷ ts) = ts

-- The flags with another buffer's identifier.
abbrev pub with_buffer : ℕ → ℕ → ℕ
with_buffer flags id = flags % 2 ^ 16 + id * 2 ^ 16

-- The loop over the parts, whose results are the chunks in order and whether the consumer failed.
unfoldable pub parts_loop :
    ℕ → Bool → ℕ → ℕ → ℕ → List Turn → Bool → Provided → Result (List Chunk × Bool × Provided)
parts_loop zero owner flags id size turns failing p = ok ([], failing, p)
parts_loop (suc parts) owner flags id size turns failing p = do
  throw_if (not (ltb id p.count)) runtime_error
  let successor = get_or p.next id 0
  let bytes = min size p.size
  (chunk, p') ← take owner (with_buffer flags id) bytes p
  let after = consume failing (first_turn turns) chunk.id p'
  (chunks, failing', p'') ←
      parts_loop parts owner flags successor (size - bytes) (other_turns turns) after.0 after.1
  ok (chunk ∷ chunks, failing', p'')

abbrev pub parts_of : ℕ → ℕ → ℕ
parts_of size each_size = if size == 0 then 1 else (size - 1) / each_size + 1

unfoldable pub each : Bool → ℕ → ℕ → List Turn → Provided → Result (List Chunk × Bool × Provided)
each owner flags size turns p = do
  throw_if (ltb p.count (parts_of size p.size)) runtime_error
  parts_loop (parts_of size p.size) owner flags (buffer_of flags) size turns false p
