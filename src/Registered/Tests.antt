-- ===== src/Registered/Tests.antt =====
-- Tests of the registered tables, and the theorems at concrete inputs.
use snowy.Prelude.{
  ℕ, ◌+◌, ◌≤◌, ◌<◌, ◌^◌, ◌≡◌, refl, true, false, ◌&&◌, none, some, List, [], ◌∷◌, length, get_or,
  ltb, leb, ◌↔◌, arith,
}
use snowy.File.{int_max, int64_max}
use snowy.Syscalls.{Vector}
use snowy.Fault.{ok, err, count, invalid_argument, logic_error, out_of_range}
use snowy.Registered.Ops.{Sqe, Table, nop_entry, transfer, prepared, transfer_call, bounds}
use snowy.Registered.Files
use snowy.Registered.Files.{Files}
use snowy.Registered.Buffers
use snowy.Registered.Buffers.{Buffers, vacant}
use snowy.Registered.World.{Command, make, submitted, retired, completed, run}
use snowy.Registered.Pins.{Held, run-Held}
use snowy.Registered.Regions.{as_transfer, Plain, transfer_iff, at_slot-update, answer_of}

abbrev page : ℕ → Vector
page base = record { base = some base; len = 4096 }

abbrev table : Table
table = record { ring = 1; active = 0 }

abbrev files : Files
files = record { table = table; size = 4 }

abbrev buffers : Buffers
buffers = record { table = table; regions = page 100 ∷ page 200 ∷ page 300 ∷ [] }

abbrev after : Buffers
after = record buffers { regions = page 100 ∷ page 900 ∷ page 300 ∷ [] }

-- The kernel makes the first of two replacements.
partly_updated : Buffers.update true buffers 1 (page 900 ∷ vacant ∷ []) (count 1) ≡ ok (1, after)
unfolding Buffers.update
partly_updated = refl

past_the_end : Buffers.update true buffers 2 (page 900 ∷ vacant ∷ []) (count 1) ≡ err out_of_range
unfolding Buffers.update
past_the_end = refl

too_long : transfer 3 (record { base = some 1; len = 2 ^ 31 }) 0 true none ≡ err invalid_argument
unfolding transfer bounds
too_long = refl

abbrev commands : List Command
commands =
    make true 1 nop_entry true false ∷ submitted 0 ∷ completed 0 (count 7) false ∷ retired 0 ∷ []

-- An operation that exists keeps the table from being updated, and one that is gone does not.
still_used :
    (Files.update true (record files { table = record table { active = 1 } }) 0 1 (count 1))
    ≡ err logic_error
unfolding Files.update
still_used = refl

run-Held_example : Held (run commands (record { files = files; buffers = buffers; ops = [] }))
run-Held_example = run-Held commands files buffers refl refl

abbrev fixed_write : Sqe
fixed_write = prepared (transfer_call 3 (page 100) 512 true (some 2))

transfer_iff_example : (transfer 3 (page 100) 512 true (some 2) ≡ ok fixed_write) ↔ (
    (4096 ≤ int_max)
    × (512 + 4096 ≤ int64_max)
    × (as_transfer fixed_write.call ≡ some (3, page 100, 512, true, some 2))
    × Plain fixed_write)
transfer_iff_example = transfer_iff 3 (page 100) 512 true (some 2) fixed_write

at_slot-update_example :
    (length after.regions ≡ length buffers.regions)
    × ((i : ℕ)
        → i < 1
        → Buffers.at_slot true after (1 + i)
          ≡ answer_of true (get_or (page 900 ∷ vacant ∷ []) i vacant))
    × ((i : ℕ)
        → leb 1 i && ltb i (1 + 1) ≡ false
        → Buffers.at_slot true after i ≡ Buffers.at_slot true buffers i)
at_slot-update_example =
    at_slot-update buffers after 1 (page 900 ∷ vacant ∷ []) 1 1 (omega arith) partly_updated
