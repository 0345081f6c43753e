-- ===== src/Provided/Tests.antt =====
-- Tests of the provided buffers, and the theorems at concrete inputs.
use snowy.Prelude.{ℕ, ◌≡◌, refl, true, false, List, [], ◌∷◌, arith}
use snowy.Fault.{ok, err, count, invalid_argument}
use snowy.Provided.{
  Provided, Chunk, Turn, create, capacity, single_bit, take, put, return_held, parts_loop, each,
}
use snowy.Provided.Order.{IsOrdered}
use snowy.Provided.Lease.{Event, fill, decode, drop_lease, InPlace, run, step, create-InPlace}
use snowy.Provided.Bundle.{IsDecoded, each-IsDecoded}

abbrev four : Provided
four = record {
  count = 4;
  size = 10;
  leases = 0;
  held = false ∷ false ∷ false ∷ false ∷ [];
  next = 1 ∷ 2 ∷ 3 ∷ 0 ∷ [];
  tail = 3;
  is_set = false;
  ring = 0 ∷ 1 ∷ 2 ∷ 3 ∷ [];
}

created : create 4 10 (count 0) ≡ ok four
unfolding create capacity single_bit
created = refl

three_entries : create 3 10 (count 0) ≡ err invalid_argument
unfolding create capacity single_bit
three_entries = refl

-- Two buffers are filled and decoded, and the second goes back first.
abbrev events : List Event
events = fill ∷ fill ∷ decode 10 ∷ decode 4 ∷ drop_lease 1 ∷ drop_lease 0 ∷ []

abbrev shuffled : Provided
shuffled = record four {
  next = 1 ∷ 0 ∷ 3 ∷ 1 ∷ [];
  tail = 0;
  is_set = true;
  ring = 2 ∷ 3 ∷ 1 ∷ 0 ∷ [];
}

out_of_order :
    run events (record { pool = four; waiting = [] })
    ≡ ok (record { pool = shuffled; waiting = [] })
unfolding run step take return_held put
out_of_order = refl

-- A bundle of 25 bytes, of which the consumer keeps the second chunk, in buffers 2, 3 and 1.
abbrev keeps_second : List Turn
keeps_second =
    record { returns = 2 ∷ []; throws = false }
    ∷ record { returns = []; throws = false }
    ∷ record { returns = 1 ∷ []; throws = false }
    ∷ []

abbrev bundle_flags : ℕ
bundle_flags = 131073

abbrev chunks : List Chunk
chunks =
    record { id = 2; bytes = 10 }
    ∷ record { id = 3; bytes = 10 }
    ∷ record { id = 1; bytes = 5 }
    ∷ []

abbrev after : Provided
after = record four {
  leases = 1;
  held = false ∷ false ∷ false ∷ true ∷ [];
  next = 2 ∷ 0 ∷ 1 ∷ 1 ∷ [];
  tail = 1;
  is_set = true;
  ring = 2 ∷ 3 ∷ 1 ∷ 0 ∷ 2 ∷ 1 ∷ [];
}

decoded_bundle : each true bundle_flags 25 keeps_second shuffled ≡ ok (chunks, false, after)
unfolding each parts_loop take return_held put
decoded_bundle = refl

create-InPlace_example : InPlace (run events (record { pool = four; waiting = [] }))
create-InPlace_example = create-InPlace 4 10 (count 0) four events created

shuffled-IsOrdered : IsOrdered shuffled (2 ∷ 3 ∷ 1 ∷ 0 ∷ [])
shuffled-IsOrdered = record {
  links = (refl, (refl, (refl, refl)));
  free = (
    (omega arith, refl),
    ((omega arith, refl), ((omega arith, refl), ((omega arith, refl), tt))),
  );
  distinct = ground arith;
  held_length = refl;
  next_length = refl;
  tail_below = omega arith;
  leased = refl;
  shared = refl;
}

each-IsDecoded_example :
    IsDecoded shuffled
      (2 ∷ 3 ∷ 1 ∷ [])
      (0 ∷ [])
      25
      keeps_second
      false
      (each true bundle_flags 25 keeps_second shuffled)
each-IsDecoded_example =
    each-IsDecoded 2 (3 ∷ 1 ∷ []) (0 ∷ []) bundle_flags 25 keeps_second shuffled refl refl
      shuffled-IsOrdered (omega arith) refl
