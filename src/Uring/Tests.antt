-- ===== src/Uring/Tests.antt =====
-- The requests of uring.cpp at concrete inputs.
use snowy.Prelude.{◌≡◌, refl, true, false, none, List, [], ◌∷◌}
use snowy.Uring.{
  Request, Driver, got, failed, read, submit, cancel, retire, resulted, canceled, update, prepare,
}
use snowy.Uring.Kernel.{Event, submits, cancels, results, acknowledges, step, run}
use snowy.Uring.Track.{idle, Accounted, run-Accounted}

abbrev receive : Request
receive = record {
  code = read;
  fd = 3;
  data_at = 0;
  size = 64;
  offset = 0;
  address_size = 0;
  drains_first = false;
  draining = false;
  canceling = false;
  cancel_sent = false;
  done = false;
  error = none;
  bytes = 0;
  accepted = none;
}

abbrev driver : Driver
driver = record {
  request = λ id. receive;
  linked = λ id. false;
  completed = [];
  sqes = [];
  drains = 0;
  iopoll = false;
  watching = true;
  watch_waking = false;
  event = false;
}

-- Request 1 is canceled, and its result comes before the answer to the cancellation.
abbrev events : List Event
events =
    submits 1 receive
    ∷ submits 2 receive
    ∷ cancels 1
    ∷ results 1 false (failed 125)
    ∷ results 2 false (got 9 0 false)
    ∷ acknowledges 1
    ∷ []

retired : (run (idle driver) events).driver.completed ≡ 2 ∷ 1 ∷ []
unfolding run step submit cancel retire resulted canceled update prepare
retired = refl

run-Accounted_example : Accounted (run (idle driver) events) 1
run-Accounted_example = run-Accounted driver events 1
