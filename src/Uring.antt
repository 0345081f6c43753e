-- ===== src/Uring.antt =====
-- src/uring.cpp, the Linux backend of the loop, with the requests of include/snowy/detail/io.hpp. A
-- request is known by its address, a number, and `linked` says which requests stand in the loop's
-- list. The kernel is not part of this: what it answers is given, in completion entries.
pub mod Kernel
pub mod Linked
pub mod Track
mod Tests
use snowy.Prelude.{
  ℕ, suc, ◌+◌, ◌-◌, Bool, true, false, not, ◌&&◌, ◌||◌, Option, none, some, List, [], ◌∷◌, ◌++◌,
  ◌==◌, if◌then◌else◌,
}

pub data Opcode : Type 0 where
  nop read write accept connect recv_from send_to file_read file_write file_sync native : Opcode

-- The error of a request: the kernel's number, or `message_size`.
pub data Failure : Type 0 where
  errno : ℕ → Failure
  truncated : Failure

-- `io`, as far as this backend uses it. `drains_first` is the DRAIN flag that `prepare` sets.
pub record Request : Type 0 where
  pub code : Opcode
  pub fd : ℕ
  pub data_at : ℕ
  pub size : ℕ
  pub offset : ℕ
  pub address_size : ℕ
  pub drains_first : Bool
  pub draining : Bool
  pub canceling : Bool
  pub cancel_sent : Bool
  pub done : Bool
  pub error : Option Failure
  pub bytes : ℕ
  pub accepted : Option ℕ

-- The submission entries, by the liburing function that prepares them.
pub data Sqe : Type 0 where
  sqe_native sqe_nop : Sqe
  sqe_read sqe_write : ℕ → ℕ → ℕ → ℕ → Sqe
  sqe_fsync sqe_accept : ℕ → Sqe
  sqe_recv sqe_send : ℕ → ℕ → ℕ → Sqe
  sqe_connect : ℕ → ℕ → Sqe
  sqe_recvmsg sqe_sendmsg : ℕ → ℕ → ℕ → ℕ → Sqe
  -- The cancellation of a request, which `user_data` tells by its lowest bit.
  sqe_cancel : ℕ → Sqe

unfoldable pub prepare : Opcode → Request → Sqe
prepare native op = sqe_native
prepare nop op = sqe_nop
prepare file_read op = sqe_read op.fd op.data_at op.size op.offset
prepare file_write op = sqe_write op.fd op.data_at op.size op.offset
prepare file_sync op = sqe_fsync op.fd
prepare read op = sqe_recv op.fd op.data_at op.size
prepare write op = sqe_send op.fd op.data_at op.size
prepare accept op = sqe_accept op.fd
prepare connect op = sqe_connect op.fd op.address_size
prepare recv_from op = sqe_recvmsg op.fd op.data_at op.size op.address_size
prepare send_to op = sqe_sendmsg op.fd op.data_at op.size op.address_size

-- What a ring that polls its devices accepts.
abbrev pub is_storage : Opcode → Bool
is_storage file_read = true
is_storage file_write = true
is_storage native = true
is_storage _ = false

-- `driver` with the loop's list. `event` says whether the eventfd is raised.
pub record Driver : Type 0 where
  pub request : ℕ → Request
  pub linked : ℕ → Bool
  pub completed : List ℕ
  pub sqes : List Sqe
  pub drains : ℕ
  pub iopoll : Bool
  pub watching : Bool
  pub watch_waking : Bool
  pub event : Bool

unfoldable pub update {ℓ} : {A : Type ℓ} → (ℕ → A) → ℕ → A → ℕ → A
update f i a j = if i == j then a else f j

-- The part of `submit` about DRAIN: the poll of the wake source must not be held back behind it.
abbrev pub start_drain : Bool → Driver → Driver
start_drain first d = record d {
  drains = (if first then d.drains + 1 else d.drains);
  event = d.event || (first && d.watching && not d.watch_waking);
  watch_waking = d.watch_waking || (first && d.watching);
}

-- `submit` of a new request that the caller links; none where it throws, and the caller unlinks it.
unfoldable pub submit : Driver → ℕ → Request → Option Driver
submit d id op =
    let drained = start_drain op.drains_first d in
    if d.iopoll && not (is_storage op.code)
    then none
    else some (record drained {
      request = update d.request id (record op {
        draining = op.drains_first;
        canceling = false;
        cancel_sent = false;
        done = false;
      });
      linked = update d.linked id true;
      sqes = d.sqes ++ (prepare op.code op ∷ []);
    })

unfoldable pub cancel : Driver → ℕ → Driver
cancel d id = record d {
  request = update d.request id (record (d.request id) { canceling = true; cancel_sent = true });
  sqes = d.sqes ++ (sqe_cancel id ∷ []);
}

-- `retire` with `complete`.
unfoldable pub retire : Driver → ℕ → Driver
retire d id = record d {
  drains = (if (d.request id).draining then d.drains - 1 else d.drains);
  linked = update d.linked id false;
  completed = d.completed ++ (id ∷ []);
}

-- A result of the kernel: an error number, or a count or descriptor with, for `recv_from`, the
-- length of the address and whether the message was cut.
pub data Reply : Type 0 where
  failed : ℕ → Reply
  got : ℕ → ℕ → Bool → Reply

-- The fields that a result writes.
abbrev pub error_after : Opcode → Reply → Option Failure → Option Failure
error_after code (failed e) old = some (errno e)
error_after recv_from (got n len cut) old = if cut then some truncated else old
error_after _ (got n len cut) old = old

abbrev pub accepted_after : Opcode → Reply → Option ℕ → Option ℕ
accepted_after code (failed e) old = old
accepted_after accept (got n len cut) old = some n
accepted_after _ (got n len cut) old = old

abbrev pub bytes_after : Opcode → Reply → ℕ → ℕ
bytes_after code (failed e) old = old
bytes_after accept (got n len cut) old = old
bytes_after _ (got n len cut) old = n

abbrev pub address_after : Opcode → Reply → ℕ → ℕ
address_after code (failed e) old = old
address_after recv_from (got n len cut) old = len
address_after _ (got n len cut) old = old

abbrev pub apply_result : Opcode → Reply → Request → Request
apply_result code reply op = record op {
  error = error_after code reply op.error;
  accepted = accepted_after code reply op.accepted;
  bytes = bytes_after code reply op.bytes;
  address_size = address_after code reply op.address_size;
}

pub data Cqe : Type 0 where
  wake_cqe : Cqe
  cancel_cqe : ℕ → Cqe
  -- With true, the flag that more will follow.
  result_cqe : ℕ → Bool → Reply → Cqe

abbrev pub set_request : Driver → ℕ → Request → Driver
set_request d id op = record d { request = update d.request id op }

-- The body of the loop over a batch, without the wake entry.
unfoldable pub canceled : Driver → ℕ → Driver
canceled d id =
    let d' = set_request d id (record (d.request id) { canceling = false }) in
    if (d.request id).done then retire d' id else d'

unfoldable pub resulted : Driver → ℕ → Bool → Reply → Driver
resulted d id more reply =
    let d' =
      set_request d id
        (apply_result (d.request id).code reply (record (d.request id) { done = not more })) in
    if not more && not (d.request id).canceling then retire d' id else d'

unfoldable pub take_cqe : Driver → Cqe → Driver
take_cqe d wake_cqe = d
take_cqe d (cancel_cqe id) = canceled d id
take_cqe d (result_cqe id more reply) = resulted d id more reply

abbrev pub is_wake : Cqe → Bool
is_wake wake_cqe = true
is_wake _ = false

-- The batch, and whether the wake entry was in it.
unfoldable pub take_batch : Driver → List Cqe → Bool → Driver × Bool
take_batch d [] seen = (d, seen)
take_batch d (c ∷ cs) seen = take_batch (take_cqe d c) cs (seen || is_wake c)

-- `watch`.
abbrev pub rearm : Driver → Driver
rearm d =
    if not d.iopoll && not d.watching && d.drains == 0 then record d { watching = true } else d

-- `poll` once the kernel has returned with a batch. A ring that polls its devices has read the
-- eventfd itself.
unfoldable pub poll : Driver → List Cqe → Driver
poll d cs =
    let read_first = if d.iopoll then record d { event = false } else d in
    let (d', seen) = take_batch read_first cs false in
    rearm (if seen then record d' { watching = false; watch_waking = false; event = false } else d')
