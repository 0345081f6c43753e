-- ===== src/Setup/Tests.antt =====
-- Tests of the set-up of a ring, and the theorem at a concrete input.
use snowy.Prelude.{◌≡◌, refl, true, false, none, some}
use snowy.Fault.{err, invalid_argument, system_error, count, failed}
use snowy.Setup.{
  Flags, Options, System, nobody, is_invalid, params, without_single_issuer, create, idle, invalid,
}
use snowy.Setup.Settled.{Settled}

abbrev plain : Flags
plain = record {
  iopoll = false;
  sqpoll = false;
  sq_aff = false;
  single_issuer = false;
  coop_taskrun = false;
  defer_taskrun = false;
  taskrun_flag = false;
  submit_all = false;
  others = false;
}

abbrev defaults : Options
defaults = record {
  entries = 256;
  cq_entries = 0;
  flags = plain;
  idle_ms = 1000;
  cpu = 0;
  budget = 64;
  submit_batch = 0;
  wq_fd = nobody;
  register_fd = false;
  single_issuer = true;
}

-- An older kernel that refuses the offer.
abbrev older : System
older = record {
  first = failed invalid;
  second = count 0;
  register = count 1;
  event = count 5;
  watch = none;
}

retried : (create defaults older).1.ring ≡ some (without_single_issuer (params defaults))
unfolding create is_invalid
retried = refl

no_event : (create defaults (record older { event = failed 24 })) ≡ (err (system_error 24), idle)
unfolding create is_invalid
no_event = refl

affinity_alone :
    (create (record defaults { flags = record plain { sq_aff = true } }) older).0
    ≡ err invalid_argument
unfolding create is_invalid
affinity_alone = refl
