-- ===== src/Setup/Settled.antt =====
-- What the constructor of a loop leaves behind, whether it succeeds or fails.
use snowy.Prelude.{◌≡◌, true, false, not, Option, none, some, ◌⊎◌, is_some}
use snowy.Fault.{Fault, Result, ok, err, failed}
use snowy.Setup.Asked.{Checked, Asked}
use snowy.Setup.{
  Options, Params, Driver, System, is_invalid, params, without_single_issuer, idle, invalid,
}

-- A ring has the parameters that were asked for, or, if the system refused them as invalid and the
-- flag of a single issuer was only an offer, those without it.
abbrev pub RightRing : Options → System → Option Params → Type 0
RightRing o s ring =
    (ring ≡ some (params o))
    ⊎ ((ring ≡ some (without_single_issuer (params o)))
        × (s.first ≡ failed invalid)
        × (o.single_issuer ≡ true)
        × (o.flags.single_issuer ≡ false)
        × (o.flags.defer_taskrun ≡ false))

-- The driver of a loop that can be used.
pub record IsOpen (o : Options) (s : System) (d : Driver) : Type 0 where
  pub valid : is_invalid o ≡ false
  pub accepted : Checked o
  pub asked : Asked o d.ring
  pub right_ring : RightRing o s d.ring
  pub registered : d.registered ≡ o.register_fd
  pub event : is_some d.event ≡ true
  pub watching : d.watching ≡ not o.flags.iopoll
  pub iopoll : d.iopoll ≡ o.flags.iopoll
  pub submit_batch : d.submit_batch ≡ o.submit_batch
  pub budget : d.budget ≡ o.budget

-- One that holds nothing.
pub record IsClosed (d : Driver) : Type 0 where
  pub ring : d.ring ≡ none
  pub registered : d.registered ≡ false
  pub event : d.event ≡ none

abbrev pub Settled : Options → System → Result (Unit {0}) × Driver → Type 0
Settled o s (ok u, d) = IsOpen o s d
Settled o s (err f, d) = IsClosed d

-- A driver in the making.
record IsReady (o : Options) (s : System) (d : Driver) : Type 0 where
  valid : is_invalid o ≡ false
  right_ring : RightRing o s d.ring
  idle_yet : d.watching ≡ false
  iopoll : d.iopoll ≡ o.flags.iopoll
  submit_batch : d.submit_batch ≡ o.submit_batch
  budget : d.budget ≡ o.budget

abbrev beginning : Options → Driver
beginning o = record idle {
  budget = o.budget;
  iopoll = o.flags.iopoll;
  submit_batch = o.submit_batch;
}
