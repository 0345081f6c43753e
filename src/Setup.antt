-- ===== src/Setup.antt =====
-- src/uring.cpp: the constructor of a loop from `uring::options`, which checks them, sets up the ring
-- and gives back what it has when a later step fails. The answers of the system are arguments.
pub mod Asked
pub mod Settled
mod Tests
use snowy.Prelude.{
  ℕ, ◌<◌, Bool, true, false, not, ◌&&◌, ◌||◌, Option, none, some, List, [], ◌∷◌, ◌++◌, ltb, ◌==◌,
  if◌then◌else◌,
}
use snowy.Fault.{Fault, invalid_argument, system_error, Result, ok, err, Code, count, failed}

-- The flags that are allowed, and whether any other bit is set.
pub record Flags : Type 0 where
  pub iopoll : Bool
  pub sqpoll : Bool
  pub sq_aff : Bool
  pub single_issuer : Bool
  pub coop_taskrun : Bool
  pub defer_taskrun : Bool
  pub taskrun_flag : Bool
  pub submit_all : Bool
  pub others : Bool

-- `wq_fd`: -1, another negative number, or a descriptor.
pub data Borrowed : Type 0 where
  nobody negative : Borrowed
  from : ℕ → Borrowed

pub record Options : Type 0 where
  pub entries : ℕ
  pub cq_entries : ℕ
  pub flags : Flags
  pub idle_ms : ℕ
  pub cpu : ℕ
  pub budget : ℕ
  pub submit_batch : ℕ
  pub wq_fd : Borrowed
  pub register_fd : Bool
  pub single_issuer : Bool

-- `io_uring_params` as the call is given it; a field that stays zero is none.
pub record Params : Type 0 where
  pub flags : Flags
  pub wq_fd : Option ℕ
  pub cq_entries : Option ℕ
  pub sq_thread_idle : ℕ
  pub sq_thread_cpu : ℕ

abbrev pub is_negative : Borrowed → Bool
is_negative nobody = false
is_negative negative = true
is_negative (from fd) = false

abbrev pub borrowed : Borrowed → Option ℕ
borrowed nobody = none
borrowed negative = none
borrowed (from fd) = some fd

abbrev pub max_entries : ℕ
max_entries = 32768

unfoldable pub is_invalid : Options → Bool
is_invalid o =
    o.entries == 0
    || ltb max_entries o.entries
    || o.budget == 0
    || o.flags.others
    || ltb o.entries o.submit_batch
    || is_negative o.wq_fd
    || (not (o.cq_entries == 0) && ltb o.cq_entries o.entries)
    || (o.flags.sq_aff && not o.flags.sqpoll)
    || (o.flags.sqpoll && (o.flags.coop_taskrun || o.flags.defer_taskrun || o.flags.taskrun_flag))

abbrev pub params : Options → Params
params o = record {
  flags = record o.flags { single_issuer = o.flags.single_issuer || o.single_issuer };
  wq_fd = borrowed o.wq_fd;
  cq_entries = if o.cq_entries == 0 then none else some o.cq_entries;
  sq_thread_idle = o.idle_ms;
  sq_thread_cpu = o.cpu;
}

-- The same without the flag that older kernels do not know.
abbrev pub without_single_issuer : Params → Params
without_single_issuer p = record p { flags = record p.flags { single_issuer = false } }

-- What the constructor has acquired and set.
pub record Driver : Type 0 where
  pub ring : Option Params
  pub registered : Bool
  pub event : Option ℕ
  pub watching : Bool
  pub iopoll : Bool
  pub submit_batch : ℕ
  pub budget : ℕ

-- What the system says: to the first and the second set-up, to the registration of the ring's
-- descriptor, to `eventfd`, and whether arming the wake poll throws.
pub record System : Type 0 where
  pub first : Code
  pub second : Code
  pub register : Code
  pub event : Code
  pub watch : Option Fault

abbrev pub idle : Driver
idle = record {
  ring = none;
  registered = false;
  event = none;
  watching = false;
  iopoll = false;
  submit_batch = 0;
  budget = 64;
}

-- `EINVAL`.
abbrev pub invalid : ℕ
invalid = 22

abbrev pub may_retry : Options → Code → Bool
may_retry o (count n) = false
may_retry o (failed e) =
    e == invalid && o.single_issuer && not (o.flags.single_issuer || o.flags.defer_taskrun)

-- The ring that is set up, and what the last call says.
abbrev pub set_up : Options → System → Params × Code
set_up o s =
    if may_retry o s.first
    then (without_single_issuer (params o), s.second)
    else (params o, s.first)

-- The handler, which gives back what there is.
abbrev pub give_back : Fault → Driver → Result (Unit {0}) × Driver
give_back f d =
    (err f, record d { event = none; registered = false; ring = none; watching = false })

abbrev pub watched : Option Fault → Driver → Result (Unit {0}) × Driver
watched none d = (ok tt, if d.iopoll then d else record d { watching = true })
watched (some f) d = if d.iopoll then (ok tt, d) else give_back f d

abbrev pub evented : System → Code → Driver → Result (Unit {0}) × Driver
evented s (failed e) d = give_back (system_error e) d
evented s (count fd) d = watched s.watch (record d { event = some fd })

abbrev pub registered_with : System → Code → Driver → Result (Unit {0}) × Driver
registered_with s (failed e) d = give_back (system_error e) d
registered_with s (count n) d = evented s s.event (record d { registered = true })

abbrev pub entered : Options → System → Params × Code → Driver → Result (Unit {0}) × Driver
entered o s (p, failed e) d = (err (system_error e), d)
entered o s (p, count n) d =
    if o.register_fd
    then registered_with s s.register (record d { ring = some p })
    else evented s s.event (record d { ring = some p })

unfoldable pub create : Options → System → Result (Unit {0}) × Driver
unfolding is_invalid
create o s =
    if is_invalid o
    then (err invalid_argument, idle)
    else entered o s (set_up o s)
        (record idle { budget = o.budget; iopoll = o.flags.iopoll; submit_batch = o.submit_batch })
