-- ===== src/Registered/World.antt =====
-- The tables of a loop with the operations that exist, and what a program does with them.
use snowy.Prelude.{ℕ, zero, suc, ◌+◌, Bool, true, false, Option, none, some, List, [], ◌∷◌}
use snowy.Fault.{Result, ok, err, Code}
use snowy.Registered.Ops.{Sqe, Op, Table, create, result, destroy}
use snowy.Registered.Files.{Files}
use snowy.Registered.Buffers.{Buffers}

-- The tables of a loop, and the operation objects that exist.
pub record World : Type 0 where
  pub files : Files
  pub buffers : Buffers
  pub ops : List Op

-- Construct an operation of a ring that is given the tables or not, mark one as submitted or as
-- retired, hand one a completion, destroy one.
pub data Command : Type 0 where
  make : Bool → ℕ → Sqe → Bool → Bool → Command
  submitted retired discard : ℕ → Command
  completed : ℕ → Code → Bool → Command

abbrev pub using {ℓ} : {A : Type ℓ} → Bool → A → Option A
using true a = some a
using false a = none

abbrev pub replaced_by : Table → Option Table → Table
replaced_by t none = t
replaced_by t (some u) = u

abbrev pub made : World → Result (Op × Option Table × Option Table) → World
made w (err e) = w
made w (ok (o, f, b)) = record {
  files = record w.files { table = replaced_by w.files.table f };
  buffers = record w.buffers { table = replaced_by w.buffers.table b };
  ops = o ∷ w.ops;
}

abbrev pub change : (Op → Op) → ℕ → List Op → List Op
change f i [] = []
change f zero (o ∷ os) = f o ∷ os
change f (suc i) (o ∷ os) = o ∷ change f i os

abbrev pub without : Op → Option (List Op × Table × Table) → Option (List Op × Table × Table)
without o none = none
without o (some (os, f, b)) = some (o ∷ os, f, b)

abbrev pub left_with : List Op → Option (Table × Table) → Option (List Op × Table × Table)
left_with os none = none
left_with os (some (f, b)) = some (os, f, b)

abbrev pub discarded : ℕ → List Op → Table → Table → Option (List Op × Table × Table)
discarded i [] f b = some ([], f, b)
discarded zero (o ∷ os) f b = left_with os (destroy o f b)
discarded (suc i) (o ∷ os) f b = without o (discarded i os f b)

abbrev pub rebuilt : World → Option (List Op × Table × Table) → Option World
rebuilt w none = none
rebuilt w (some (os, f, b)) = some (record {
  files = record w.files { table = f };
  buffers = record w.buffers { table = b };
  ops = os;
})

unfoldable pub step : World → Command → Option World
step w (make owner ring sqe f b) =
    some (made w (create owner ring sqe (using f w.files.table) (using b w.buffers.table)))
step w (submitted i) = some (record w { ops = change (λ o. record o { active = true }) i w.ops })
step w (retired i) = some (record w { ops = change (λ o. record o { active = false }) i w.ops })
step w (completed i code last) = some (record w { ops = change (λ o. result o code last) i w.ops })
step w (discard i) = rebuilt w (discarded i w.ops w.files.table w.buffers.table)

abbrev pub continue_with : Option World → (World → Option World) → Option World
continue_with none k = none
continue_with (some w) k = k w

unfoldable pub run : List Command → World → Option World
run [] w = some w
run (c ∷ cs) w = continue_with (step w c) (run cs)

abbrev pub one : Bool → ℕ
one true = 1
one false = 0

-- How many operations refer to the table of files, and to that of buffers.
abbrev pub file_users : List Op → ℕ
file_users [] = 0
file_users (o ∷ os) = one o.files + file_users os

abbrev pub buffer_users : List Op → ℕ
buffer_users [] = 0
buffer_users (o ∷ os) = one o.buffers + buffer_users os
