-- ===== src/Kqueue/Tests.antt =====
-- Tests and examples for Kqueue: a read that waits, one that is interrupted, and a canceled accept.
use snowy.Prelude.{ℕ, ◌≡◌, refl, true, false, none, some, List, [], ◌∷◌}
use snowy.Kqueue.{
  enoent, filter_error, Request, Driver, Answer, count, failed, eintr, eagain, message_size,
  operation_canceled, operation_not_supported, read, accept, recv_from, file_sync, connect, Opcode,
  Attempt, submit, ready,
}
use snowy.Kqueue.Queue.{create, wake, poll}
use snowy.Kqueue.Returns.{Returns, submit-Returns}
use snowy.Kqueue.Once.{Step, start, fire, stop, run, IsSingle, idle, idle-IsSingle, run-IsSingle}

abbrev request : ℕ → Opcode → ℕ → Request
request i c n = record {
  id = i;
  code = c;
  fd = n;
  started = false;
  bytes = 0;
  accepted = none;
  error = none;
  cancel_sent = false;
}

abbrev answer : Answer → Attempt
answer a = record { answer = a; truncated = false }

abbrev empty : Driver
empty = record { filters = []; completed = [] }

-- A read waits, then its readiness brings nothing, then four bytes; an accept waits and is canceled.
abbrev steps : List Step
steps =
    start (request 1 read 5) (answer (failed eintr) ∷ answer (failed eagain) ∷ []) (count 0 ∷ [])
    ∷ start (request 2 accept 6) (answer (failed eagain) ∷ []) (failed eintr ∷ count 0 ∷ [])
    ∷ start (request 3 read 5) (answer (count 9) ∷ []) []
    ∷ fire 0 (ready (answer (failed eagain) ∷ []) (count 0 ∷ []))
    ∷ stop 0 (count 0 ∷ [])
    ∷ fire 0 (ready (answer (count 4) ∷ []) [])
    ∷ []

completes :
    (run steps idle).driver.completed
    ≡ record (request 1 read 5) { bytes = 4 }
      ∷ record (request 2 accept 6) { error = some operation_canceled; cancel_sent = true }
      ∷ []
unfolding run
completes = refl

starts : (run steps idle).started ≡ 2 ∷ 1 ∷ []
unfolding run
starts = refl

truncates :
    submit (request 1 recv_from 5) (record { answer = count 7; truncated = true } ∷ []) [] empty
    ≡ some (record {
      filters = [];
      completed = record (request 1 recv_from 5) { bytes = 7; error = some message_size } ∷ [];
    })
unfolding submit
truncates = refl

refuses_files :
    submit (request 1 file_sync 5) [] [] empty
    ≡ some (record {
      filters = [];
      completed = record (request 1 file_sync 5) { error = some operation_not_supported } ∷ [];
    })
unfolding submit
refuses_files = refl

-- An interrupted connection is not tried again: it waits for its readiness.
connect_waits :
    submit (request 1 connect 5) (answer (failed eintr) ∷ []) (count 0 ∷ []) empty
    ≡ some
        (record { filters = record (request 1 connect 5) { started = true } ∷ []; completed = [] })
unfolding submit
connect_waits = refl

closes : (create (count 3) (failed enoent)).queue ≡ none
unfolding create
closes = refl

wakes : wake (failed eintr ∷ count 0 ∷ []) ≡ some true
unfolding wake
wakes = refl

-- Of two filters, one is ready and one has an error.
polls :
    poll
      (count 2)
      ((request 1 read 5, ready (answer (count 4) ∷ []) [])
        ∷ (request 2 accept 6, filter_error enoent)
        ∷ [])
      (record { filters = request 1 read 5 ∷ request 2 accept 6 ∷ []; completed = [] })
    ≡ some (
      none,
      record {
        filters = [];
        completed =
            record (request 2 accept 6) { error = some enoent }
            ∷ record (request 1 read 5) { bytes = 4 }
            ∷ [];
      },
    )
unfolding poll
polls = refl

interrupted : poll (failed eintr) [] empty ≡ some (none, empty)
unfolding poll
interrupted = refl

run-IsSingle_example : IsSingle (run steps idle)
run-IsSingle_example = run-IsSingle steps idle idle-IsSingle

abbrev interruptions : List Attempt
interruptions = answer (failed eintr) ∷ answer (failed eagain) ∷ []

submit-Returns_example :
    Returns (submit (request 1 read 5) interruptions (failed eintr ∷ count 0 ∷ []) empty)
submit-Returns_example =
    submit-Returns (request 1 read 5) interruptions (failed eintr ∷ count 0 ∷ []) empty refl refl
