-- ===== src/Setup/Asked.antt =====
-- What the options of a loop's constructor have to be, and what the ring is asked for.
use snowy.Prelude.{
  zero, suc, if◌then◌else◌, ℕ, ◌<◌, ◌≤◌, ◌≡◌, refl, true, false, Option, none, some, ◌⊎◌, ◌==◌,
  arith,
}
use snowy.Setup.{
  Options, Flags, Params, Borrowed, nobody, negative, from, borrowed, is_invalid, params,
  without_single_issuer,
}

-- `wq_fd` is -1 or a descriptor.
abbrev pub IsBorrowed : Borrowed → Type 0
IsBorrowed nobody = Unit
IsBorrowed negative = ⊥
IsBorrowed (from fd) = Unit

-- The options that the constructor accepts.
abbrev pub Checked : Options → Type 0
Checked o =
    (0 < o.entries)
    × (o.entries ≤ 32768)
    × (0 < o.budget)
    × (o.flags.others ≡ false)
    × (o.submit_batch ≤ o.entries)
    × ((o.cq_entries ≡ 0) ⊎ (o.entries ≤ o.cq_entries))
    × (o.flags.sq_aff ≡ true → o.flags.sqpoll ≡ true)
    × (o.flags.sqpoll ≡ true
        → (o.flags.coop_taskrun ≡ false)
          × (o.flags.defer_taskrun ≡ false)
          × (o.flags.taskrun_flag ≡ false))
    × IsBorrowed o.wq_fd

pub checked : (o : Options) → is_invalid o ≡ false → Checked o
unfolding is_invalid
checked o v = ground arith

-- The descriptor that a ring shares its workers with, and the size of its completion queue, if any are given.
abbrev pub shares : Borrowed → Option ℕ
shares (from fd) = some fd
shares _ = none

abbrev pub sized : ℕ → Option ℕ
sized zero = none
sized (suc n) = some (suc n)

abbrev pub but_issuer : Flags → Flags
but_issuer f = record f { single_issuer = false }

abbrev pub Asked : Options → Option Params → Type 0
Asked o none = ⊥
Asked o (some p) =
    (but_issuer p.flags ≡ but_issuer o.flags)
    × (p.wq_fd ≡ shares o.wq_fd)
    × (p.cq_entries ≡ sized o.cq_entries)
    × (p.sq_thread_idle ≡ o.idle_ms)
    × (p.sq_thread_cpu ≡ o.cpu)

shared : (b : Borrowed) → borrowed b ≡ shares b
shared nobody = refl
shared negative = refl
shared (from fd) = refl

sizes : (n : ℕ) → (if n == 0 then none else some n) ≡ sized n
sizes zero = refl
sizes (suc n) = ground arith

pub params-Asked : (o : Options) → Asked o (some (params o))
params-Asked o = (refl, shared o.wq_fd, sizes o.cq_entries, refl, refl)

pub without-Asked : (o : Options) → Asked o (some (without_single_issuer (params o)))
without-Asked o = (refl, shared o.wq_fd, sizes o.cq_entries, refl, refl)
