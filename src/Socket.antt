-- ===== src/Socket.antt =====
-- src/socket.cpp: `write_all` over a stream socket, and the datagram limit of src/udp.cpp. The system
-- call is a parameter: it says how many bytes it took of those it was given. `canceled` says whether
-- cancellation is seen after so many bytes. What the peer will read is the list of bytes sent.
pub mod Sent
mod Tests
use snowy.Prelude.{
  ℕ, zero, suc, ◌+◌, min, Bool, true, false, not, Option, none, some, List, [], ◌∷◌, ◌++◌, ltb,
  ◌==◌, if◌then◌else◌, length, take, drop,
}
use snowy.File.{Reply, moved, failed, int_max}

pub data Error : Type 0 where
  operation_canceled broken_pipe message_size : Error
  errno : ℕ → Error
  -- The model's own: the loop was not given enough rounds.
  unfinished : Error

pub record Outcome : Type 0 where
  pub error : Option Error
  pub moved_bytes : ℕ
  pub sent : List ℕ

abbrev pub wrote : List ℕ → List ℕ → Reply → Outcome
wrote buffer sent (failed e) = record { error = some (errno e); moved_bytes = 0; sent = sent }
wrote buffer sent (moved n) = record { error = none; moved_bytes = n; sent = sent ++ take n buffer }

module _ (send_call : List ℕ → List ℕ → Reply) (canceled : ℕ → Bool) where
  -- `write` and its request: at most INT_MAX bytes.
  unfoldable pub write : List ℕ → List ℕ → Outcome
  write sent buffer =
      if canceled (length sent)
      then record { error = some operation_canceled; moved_bytes = 0; sent = sent }
      else wrote buffer sent (send_call sent (take (min (length buffer) int_max) buffer))

  unfoldable pub write_loop : ℕ → List ℕ → List ℕ → Option Error × List ℕ
  write_loop fuel sent [] = (none, sent)
  write_loop zero sent (b ∷ bs) = (some unfinished, sent)
  write_loop (suc fuel) sent (b ∷ bs) =
      let o = write sent (b ∷ bs) in
      let rest = write_loop fuel o.sent (drop o.moved_bytes (b ∷ bs)) in
      elim o.error [
        | some e ↦ (some e, o.sent)
        | none ↦ (if o.moved_bytes == 0 then (some broken_pipe, o.sent) else rest)
      ]

  unfoldable pub write_all : List ℕ → List ℕ → Option Error × List ℕ
  write_all sent buffer = write_loop (length buffer) sent buffer

-- `udp::send`: a datagram goes whole or not at all.
unfoldable pub send_datagram : (List ℕ → Reply) → Bool → List ℕ → Option Error × ℕ
send_datagram call canceled buffer =
    if ltb 65507 (length buffer)
    then (some message_size, 0)
    else if canceled
    then (some operation_canceled, 0)
    else elim (call buffer) [
      | failed e ↦ (some (errno e), 0)
      | moved n ↦ (if n == length buffer then (none, n) else (some message_size, 0))
    ]
