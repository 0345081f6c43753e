-- ===== src/Mailbox/Tests.antt =====
-- The theorems about mailbox.hpp at concrete inputs.
use snowy.Prelude.{ℕ, ◌≡◌, Bool, false, List, [], ◌∷◌, ◌++◌, arith}
use snowy.Channel.Invariant.{IsValid}
use snowy.Channel.Steps
use snowy.Mailbox.{Mailbox, create}
use snowy.Mailbox.Refine.{view}
use snowy.Mailbox.Steps.{
  Call, trying_send, trying_recv, sending, receiving, move, moves, accepted, returned, handed,
  all_accepted, all_delivered, view_call,
}
use snowy.Mailbox.Fifo.{pending, call_refines, mailbox_fifo}

abbrev running : ℕ → Bool
running owner = false

-- Two threads, 0 and 1: a receiver waits, two values pass, a sender of a full mailbox waits.
abbrev script : List (Call ℕ)
script =
    receiving 1 0 false false
    ∷ trying_send 5
    ∷ trying_send 6
    ∷ sending 2 1 7 false false
    ∷ trying_recv
    ∷ []

abbrev crowded : Mailbox ℕ
crowded = moves running (create 1) script

call_refines_example :
    (Steps.move (view running crowded) (view_call running trying_recv)
      ≡ view running (move running crowded trying_recv))
    × (Steps.accepted (view running crowded) (view_call running trying_recv)
        ≡ accepted running crowded trying_recv)
    × (Steps.returned (view running crowded) (view_call running trying_recv)
        ≡ returned running crowded trying_recv)
    × (Steps.handed (view running crowded) (view_call running trying_recv)
        ≡ handed running crowded trying_recv)
call_refines_example = call_refines running crowded trying_recv

mailbox_fifo_example :
    (ys : List ℕ) × IsValid (view running (moves running (create 1) script)) ys
    × (all_accepted running (create 1) script
        ≡ all_delivered running (create 1) script
          ++ pending running (moves running (create 1) script) ys)
mailbox_fifo_example = mailbox_fifo running 1 script (omega arith)
