-- ===== src/Registered/Pins.antt =====
-- Operations that hold a table against its update and its destruction.
use snowy.Prelude.{
  ℕ, zero, suc, ◌+◌, ◌≡◌, refl, Bool, true, false, not, Option, none, some, List, [], ◌∷◌, ◌==◌,
  ==_eq, if◌then◌else◌, arith, ap, ◌∙◌,
}
use snowy.Fault.{Result, ok, err, ◌>>◌, throw_if, Code, count, failed, is_ok, logic_error}
use snowy.Syscalls.{Vector}
use snowy.Registered.Ops.{Sqe, Op, Table, create, result, destroy, release, retain}
use snowy.Registered.Files
use snowy.Registered.Files.{Files}
use snowy.Registered.Buffers
use snowy.Registered.Buffers.{Buffers}
use snowy.Registered.World.{
  World, Command, make, submitted, retired, discard, completed, using, made, change, without,
  left_with, discarded, rebuilt, step, continue_with, run, one, file_users, buffer_users,
}

pub record IsPinned (w : World) : Type 0 where
  pub files : w.files.table.active ≡ file_users w.ops
  pub buffers : w.buffers.table.active ≡ buffer_users w.ops

-- What a construction gives is counted.
created-IsPinned :
    (w : World) (r : Result (Op × Option Table × Option Table)) (f b : Bool)
    → ((o : Op) (x y : Option Table)
        → r ≡ ok (o, x, y)
        → (o.files ≡ f)
          × (o.buffers ≡ b)
          × (x ≡ retain (using f w.files.table))
          × (y ≡ retain (using b w.buffers.table)))
    → IsPinned w
    → IsPinned (made w r)
created-IsPinned w (err e) f b h v = v
created-IsPinned w (ok (o, x, y)) true true h v = let p = h o x y refl in ground arith
created-IsPinned w (ok (o, x, y)) true false h v = let p = h o x y refl in ground arith
created-IsPinned w (ok (o, x, y)) false true h v = let p = h o x y refl in ground arith
created-IsPinned w (ok (o, x, y)) false false h v = let p = h o x y refl in ground arith

create-using :
    (owner : Bool) (ring : ℕ) (sqe : Sqe) (f b : Bool) (t u : Table) (o : Op) (x y : Option Table)
    → create owner ring sqe (using f t) (using b u) ≡ ok (o, x, y)
    → (o.files ≡ f) × (o.buffers ≡ b) × (x ≡ retain (using f t)) × (y ≡ retain (using b u))
unfolding create
create-using owner ring sqe true true t u o x y e = ground arith
create-using owner ring sqe true false t u o x y e = ground arith
create-using owner ring sqe false true t u o x y e = ground arith
create-using owner ring sqe false false t u o x y e = ground arith

-- A change that leaves the tables of an operation alone.
abbrev KeepsTables : (Op → Op) → Type 0
KeepsTables g = (o : Op) → ((g o).files ≡ o.files) × ((g o).buffers ≡ o.buffers)

result-KeepsTables : (code : Code) (last : Bool) → KeepsTables (λ o. result o code last)
unfolding result
result-KeepsTables (count n) last o = ground arith
result-KeepsTables (failed e) last o = ground arith

users-change :
    (g : Op → Op) (i : ℕ) (os : List Op)
    → KeepsTables g
    → (file_users (change g i os) ≡ file_users os)
      × (buffer_users (change g i os) ≡ buffer_users os)
users-change g i [] h = (refl, refl)
users-change g zero (o ∷ os) h =
    (ap (λ x. one x + file_users os) (h o).0, ap (λ x. one x + buffer_users os) (h o).1)
users-change g (suc i) (o ∷ os) h =
    let r = users-change g i os h in
    (ap (λ x. one o.files + x) r.0, ap (λ x. one o.buffers + x) r.1)

-- The counts, `k` and `l` of which belong to operations that stand before these.
abbrev Counts : ℕ → ℕ → Option (List Op × Table × Table) → Type 0
Counts k l none = Unit
Counts k l (some (os, f, b)) = (f.active ≡ k + file_users os) × (b.active ≡ l + buffer_users os)

without-Counts :
    (o : Op) (k l : ℕ) (r : Option (List Op × Table × Table))
    → Counts (k + one o.files) (l + one o.buffers) r
    → Counts k l (without o r)
without-Counts o k l none h = tt
without-Counts o k l (some (os, f, b)) h = omega arith

destroyed-Counts :
    (o : Op) (os : List Op) (f b : Table) (k l : ℕ)
    → f.active ≡ k + (one o.files + file_users os)
    → b.active ≡ l + (one o.buffers + buffer_users os)
    → Counts k l (left_with os (destroy o f b))
unfolding destroy
destroyed-Counts o os f b k l hf hb = settled o.files o.buffers o.active hf hb
  where
    settled :
        (x y active : Bool)
        → f.active ≡ k + (one x + file_users os)
        → b.active ≡ l + (one y + buffer_users os)
        → Counts k l (left_with os (if active then none else some (release x f, release y b)))
    settled x y true p q = tt
    settled true true false p q = (omega arith, omega arith)
    settled true false false p q = (omega arith, omega arith)
    settled false true false p q = (omega arith, omega arith)
    settled false false false p q = (omega arith, omega arith)

discarded-Counts :
    (i : ℕ) (os : List Op) (f b : Table) (k l : ℕ)
    → f.active ≡ k + file_users os
    → b.active ≡ l + buffer_users os
    → Counts k l (discarded i os f b)
discarded-Counts i [] f b k l hf hb = (hf, hb)
discarded-Counts zero (o ∷ os) f b k l hf hb = destroyed-Counts o os f b k l hf hb
discarded-Counts (suc i) (o ∷ os) f b k l hf hb =
    without-Counts o k l (discarded i os f b)
      (discarded-Counts i os f b (k + one o.files) (l + one o.buffers) (omega arith) (omega arith))

-- A world that may have ended in `std::terminate`.
abbrev Survives : Option World → Type 0
Survives none = Unit
Survives (some w) = IsPinned w

rebuilt-Survives :
    (w : World) (r : Option (List Op × Table × Table)) → Counts 0 0 r → Survives (rebuilt w r)
rebuilt-Survives w none h = tt
rebuilt-Survives w (some (os, f, b)) h = record { files = omega arith; buffers = omega arith }

changed-IsPinned :
    (w : World) (g : Op → Op) (i : ℕ)
    → KeepsTables g
    → IsPinned w
    → IsPinned (record w { ops = change g i w.ops })
changed-IsPinned w g i h v =
    let r = users-change g i w.ops h in
    record { files = omega (arith, r.0, v.files); buffers = omega (arith, r.1, v.buffers) }

step-Survives : (w : World) (c : Command) → IsPinned w → Survives (step w c)
unfolding step
step-Survives w (make owner ring sqe f b) v =
    created-IsPinned w (create owner ring sqe (using f w.files.table) (using b w.buffers.table)) f b
      (create-using owner ring sqe f b w.files.table w.buffers.table) v
step-Survives w (submitted i) v =
    changed-IsPinned w (λ o. record o { active = true }) i (λ o. (refl, refl)) v
step-Survives w (retired i) v =
    changed-IsPinned w (λ o. record o { active = false }) i (λ o. (refl, refl)) v
step-Survives w (completed i code last) v =
    changed-IsPinned w (λ o. result o code last) i (result-KeepsTables code last) v
step-Survives w (discard i) v =
    rebuilt-Survives w (discarded i w.ops w.files.table w.buffers.table) (
      discarded-Counts i w.ops w.files.table w.buffers.table 0 0 (v.files ∙ omega arith)
        (v.buffers ∙ omega arith))

onward :
    (k : World → Option World) (r : Option World)
    → ((u : World) → IsPinned u → Survives (k u))
    → Survives r
    → Survives (continue_with r k)
onward k none h v = tt
onward k (some u) h v = h u v

run-Survives : (cs : List Command) (w : World) → IsPinned w → Survives (run cs w)
unfolding run
run-Survives [] w v = v
run-Survives (c ∷ cs) w v =
    onward (run cs) (step w c) (λ u. run-Survives cs u) (step-Survives w c v)

-- Nothing of the tables changes while an operation refers to them.
pub record IsHeld (w : World) : Type 0 where
  pub file_update :
      (offset fds : ℕ) (code : Code)
      → is_ok (Files.update true w.files offset fds code) ≡ true
      → file_users w.ops ≡ 0
  pub file_close : (code : Code) → Files.may_close w.files code ≡ true → file_users w.ops ≡ 0
  pub buffer_update :
      (offset : ℕ) (regions : List Vector) (code : Code)
      → is_ok (Buffers.update true w.buffers offset regions code) ≡ true
      → buffer_users w.ops ≡ 0
  pub buffer_close :
      (code : Code) → Buffers.may_close w.buffers code ≡ true → buffer_users w.ops ≡ 0

-- A chain of checks that begins with the count of references passes only at zero.
passes_idle {ℓ} :
    {A : Type ℓ} (n : ℕ) (rest : Result A)
    → is_ok (throw_if (not (n == 0)) logic_error >> rest) ≡ true
    → n ≡ 0
passes_idle zero rest h = refl
passes_idle (suc n) rest h = ground arith

closes_idle : (n : ℕ) → n == 0 ≡ true → n ≡ 0
closes_idle n h = ==_eq n 0 h

held : (w : World) → IsPinned w → IsHeld w
unfolding Files.update Files.may_close Buffers.update Buffers.may_close
held w v = record {
  file_update = λ offset fds code h. omega (arith, v.files, passes_idle w.files.table.active _ h);
  file_close = λ code h. closing code h;
  buffer_update =
      λ offset regions code h. omega (arith, v.buffers, passes_idle w.buffers.table.active _ h);
  buffer_close = λ code h. closing_buffers code h;
}
  where
    closing : (code : Code) → Files.may_close w.files code ≡ true → file_users w.ops ≡ 0
    closing (count n) h = omega (arith, v.files, closes_idle w.files.table.active h)
    closing (failed e) h = cc

    closing_buffers :
        (code : Code) → Buffers.may_close w.buffers code ≡ true → buffer_users w.ops ≡ 0
    closing_buffers (count n) h = omega (arith, v.buffers, closes_idle w.buffers.table.active h)
    closing_buffers (failed e) h = cc

abbrev pub Held : Option World → Type 0
Held none = Unit
Held (some w) = IsHeld w

-- Start from tables that no operation refers to, and let operations be constructed with them,
-- submitted, completed, retired and destroyed in any order. Unless `std::terminate` was called, an
-- update of the table of files or of buffers that succeeds, and a destruction of either that does not
-- terminate, happens only when no operation refers to that table.
pub run-Held :
    (cs : List Command) (f : Files) (b : Buffers)
    → f.table.active ≡ 0
    → b.table.active ≡ 0
    → Held (run cs (record { files = f; buffers = b; ops = [] }))
run-Held cs f b hf hb = ending (run cs (record { files = f; buffers = b; ops = [] })) (
    run-Survives cs (record { files = f; buffers = b; ops = [] })
      (record { files = hf; buffers = hb }))
  where
    ending : (r : Option World) → Survives r → Held r
    ending none h = tt
    ending (some w) h = held w h
