-- ===== src/ZeroCopy.antt =====
-- src/uring_net.cpp and include/snowy/uring.hpp: a send without copies (`zc_send`), whose bytes are
-- reported before the kernel lets go of the buffer. The events are the flags of their objects
-- (Event has the rest), and the direction of the socket is its flag (Direction has the rest).
pub mod Reported
mod Tests
use snowy.Prelude.{
  ℕ, Bool, true, false, not, ◌&&◌, ◌||◌, Option, none, some, ltb, ◌==◌, if◌then◌else◌,
}
use snowy.File.{int_max}
use snowy.Syscalls.{Vector}
use snowy.Fault.{
  Fault, invalid_argument, logic_error, system_error, Result, ok, err, ◌>>=◌, ◌>>◌, throw_if, check,
  Code, count, failed,
}
use snowy.Registered.Ops.{Sqe, prepared, send_zc}
use snowy.Registered.Buffers.{Buffers, at_slot}

pub record Send : Type 0 where
  pub started : Bool
  pub sent : Bool
  pub released : Bool
  pub error : ℕ
  pub bytes : ℕ
  pub busy : Bool
  pub reserved : Bool

unfoldable pub create : Send
create = record {
  started = false;
  sent = false;
  released = false;
  error = 0;
  bytes = 0;
  busy = false;
  reserved = false;
}

-- `tx`, and its form for a registered buffer, with the buffer's index.
unfoldable pub tx : ℕ → Vector → Result Sqe
tx fd region = do
  throw_if (ltb int_max region.len) invalid_argument
  ok (prepared (send_zc fd region 0))

unfoldable pub tx_registered : Bool → ℕ → Buffers → ℕ → Result (Sqe × ℕ)
unfolding tx
tx_registered owner fd table index = do
  region ← at_slot owner table index
  sqe ← tx fd region
  ok (sqe, index)

-- The request's `result`.
abbrev pub unreserved : Send → Send
unreserved s = if s.reserved then record s { busy = false; reserved = false } else s

abbrev pub primary : Code → Send → Send
primary (count n) s = record (unreserved (record s { bytes = n })) { sent = true }
primary (failed e) s = unreserved (record s { error = e })

unfoldable pub result : Code → Bool → Send → Send
result code notification s = if notification then s else primary code s

unfoldable pub retire : Send → Send
retire s = record s { sent = true; released = true }

-- What `await_suspend` of a request comes to: it is pending, it is canceled at once, or it throws.
pub data Armed : Type 0 where
  pending declined : Armed
  threw : Fault → Armed

abbrev pub opened : Send → Send
opened s = record s { sent = true; released = true }

abbrev pub armed_with : Armed → Send → Result (Unit {0}) × Send
armed_with pending s = (ok tt, record s { busy = true; reserved = true })
armed_with declined s = (ok tt, opened (record s { error = 125 }))
armed_with (threw f) s = (err f, opened s)

unfoldable pub start : Bool → Armed → Send → Result (Unit {0}) × Send
start owner armed s =
    if not owner || s.started
    then (err logic_error, s)
    else armed_with armed (record s { started = true })

-- `sent()` gives the bytes once that event is set, `join()` waits for the other.
unfoldable pub await_resume : Send → Result ℕ
await_resume s = if s.error == 0 then ok s.bytes else err (system_error s.error)

unfoldable pub join : Send → Result Bool
join s = if s.started then ok s.released else err logic_error
