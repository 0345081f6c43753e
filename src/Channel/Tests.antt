-- ===== src/Channel/Tests.antt =====
-- Runs of the channel of channel.hpp at concrete inputs, and its theorems at such inputs.
use snowy.Prelude.{ℕ, ◌≡◌, refl, true, false, none, some, List, [], ◌∷◌, ◌++◌, arith, inl}
use snowy.Buffer.{Buffer, allocate, put, take_front}
use snowy.Buffer.Contents.{Holds, put-Holds, take_front-Holds}
use snowy.Channel
use snowy.Channel.{
  Node, Channel, create, push, pop, try_send, try_recv, send, recv, send_node, fail, recv_node,
  close,
}
use snowy.Channel.Invariant.{IsValid, pending}
use snowy.Channel.Steps.{
  Transfer, trying_send, trying_recv, sending, receiving, Op, transfer, closing, canceling,
  sweeping, move, moves, run, accepted, returned, handed, all_accepted, all_delivered,
}
use snowy.Channel.Fifo.{create_fifo}
use snowy.Channel.History.{run-create-IsValid}

abbrev rotated : Buffer ℕ
rotated = record { slots = some 7 ∷ some 8 ∷ []; head = 1; size = 2 }

abbrev half_full : Buffer ℕ
half_full = record { slots = none ∷ some 8 ∷ []; head = 1; size = 1 }

rotated-Holds : Holds rotated (8 ∷ 7 ∷ [])
rotated-Holds = record {
  small = omega arith;
  counted = refl;
  fits = omega arith;
  head_in = inl (omega arith);
  window = (refl, (refl, tt));
}

half_full-Holds : Holds half_full (8 ∷ [])
half_full-Holds = record {
  small = omega arith;
  counted = refl;
  fits = omega arith;
  head_in = inl (omega arith);
  window = (refl, tt);
}

-- A full channel with a sender parked behind it.
abbrev parked : Node ℕ
parked = record (send_node 1 9) { active = true }

abbrev crowded : Channel ℕ
crowded = record {
  buffer = rotated;
  closed = false;
  waiters = parked ∷ [];
  ready = [];
  stopped = false;
}

crowded-IsValid : IsValid crowded (8 ∷ 7 ∷ [])
crowded-IsValid = record {
  holds = rotated-Holds;
  payload = (refl, tt);
  queued = (tt, refl);
  drained = λ h. cc;
}

abbrev shut : Channel ℕ
shut = record crowded { closed = true; waiters = [] }

shut-IsValid : IsValid shut (8 ∷ 7 ∷ [])
shut-IsValid = record { holds = rotated-Holds; payload = tt; queued = tt; drained = λ h. refl }

put-Holds_example : Holds (put half_full 5) (8 ∷ 5 ∷ [])
put-Holds_example = put-Holds half_full (8 ∷ []) 5 refl half_full-Holds

take_front-Holds_example : ((take_front rotated).0 ≡ some 8) × Holds (take_front rotated).1 (7 ∷ [])
take_front-Holds_example = take_front-Holds rotated 8 (7 ∷ []) rotated-Holds

abbrev script : List (Transfer ℕ)
script =
    receiving 1 false false
    ∷ trying_send 5
    ∷ trying_send 6
    ∷ sending 2 7 false false
    ∷ trying_recv
    ∷ receiving 3 false false
    ∷ []

script_accepts : all_accepted (create 1) script ≡ 5 ∷ 6 ∷ 7 ∷ []
unfolding all_accepted create accepted try_send move recv pop Channel.take take_front allocate push
    send put
script_accepts = refl

script_delivers : all_delivered (create 1) script ≡ 5 ∷ 6 ∷ 7 ∷ []
unfolding all_delivered create returned recv pop Channel.take take_front allocate handed move
    try_send push send put try_recv
script_delivers = refl

create_fifo_example :
    (ys : List ℕ) × IsValid (moves (create 1) script) ys
    × (all_accepted (create 1) script
        ≡ all_delivered (create 1) script ++ pending (moves (create 1) script) ys)
create_fifo_example = create_fifo 1 script (omega arith)

abbrev events : List (Op ℕ)
events =
    transfer (sending 1 4 false false)
    ∷ transfer (sending 2 5 false false)
    ∷ canceling 2
    ∷ sweeping
    ∷ transfer trying_recv
    ∷ closing
    ∷ []

run-create-IsValid_example : (ys : List ℕ) × IsValid (run (create 1) events) ys
run-create-IsValid_example = run-create-IsValid 1 events (omega arith)

-- A receiver that was canceled and swept, and a live one behind it.
abbrev expecting : Channel ℕ
expecting = record {
  buffer = record { slots = none ∷ []; head = 0; size = 0 };
  closed = false;
  waiters =
      record (recv_node 1) { active = true; canceled = true }
      ∷ record (recv_node 2) { active = true }
      ∷ [];
  ready = [];
  stopped = false;
}
