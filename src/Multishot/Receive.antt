-- ===== src/Multishot/Receive.antt =====
-- include/snowy/uring.hpp: the loops `receive`, for one buffer a completion, and `recvmsg`, which take
-- leases of a ring of provided buffers. The consumer gives its new state, the leases that it drops
-- and its reply. A round comes with the leases that others drop while the task waits behind it.
use snowy.Prelude.{ℕ, ◌+◌, Bool, true, false, not, ◌&&◌, List, [], ◌∷◌, ltb, ◌==◌, if◌then◌else◌}
use snowy.Fault.{
  invalid_argument, runtime_error, system_error, Result, ok, err, ◌>>◌, throw_if, Code, count,
  failed,
}
use snowy.Provided.{Provided, Chunk, has_buffer, take, put, available, return_held}
use snowy.Multishot.{
  Reply, proceed, raise, Stream, Next, again, threw, Shot, onward, settle, shoot, canceled,
  no_buffers, never,
}

pub record Receiving (U : Type 0) : Type 0 where
  pub user : U
  pub pool : Provided

-- A time that `available` waits, and whether the token ends the wait.
pub record Gap : Type 0 where
  pub drops : List ℕ
  pub canceled : Bool

pub data Wait : Type 0 where
  armed refused suspended : Wait

-- `available`: `while (leases_ == count_)`.
unfoldable pub await_lease : List Gap → Provided → Provided × Wait
await_lease [] p = if (available p).0 then (p, armed) else ((available p).1, suspended)
await_lease (g ∷ gaps) p =
    let p' = return_held g.drops (available p).1 in
    let rest = await_lease gaps p' in
    if (available p).0 then (p, armed) else if g.canceled then (p', refused) else rest

abbrev pub size_of : Code → ℕ
size_of (count n) = n
size_of (failed e) = 0

module _ {U M : Type 0} (wanted : Code → Bool) (decode : Chunk → Result M)
    (fn : U → M → U × List ℕ × Reply) where
  -- What a consumer of a message comes to. A message that cannot be built gives its lease back.
  abbrev pub given_to : U → Provided → Chunk → Result M → Receiving U × Reply
  given_to u p c (err f) = (record { user = u; pool = put c.id p }, raise f)
  given_to u p c (ok m) =
      (record { user = (fn u m).0; pool = return_held (fn u m).1 p }, (fn u m).2)

  -- A completion with a buffer, which goes back at once when nobody wants it.
  abbrev pub with_lease : Receiving U → Bool → Result (Chunk × Provided) → Receiving U × Reply
  with_lease s live (err f) = (s, raise f)
  with_lease s true (ok (c, p)) = given_to s.user p c (decode c)
  with_lease s false (ok (c, p)) = (record s { pool = put c.id p }, proceed)

  abbrev pub consume : Receiving U → Bool → Code → ℕ → Receiving U × Reply
  consume s stopped res flags =
      if has_buffer flags
      then with_lease s (wanted res && not stopped) (take true flags (size_of res) s.pool)
      else (s, if wanted res then raise runtime_error else proceed)

  abbrev pub waited :
      (Receiving U → Receiving U × Next) → Receiving U → Provided × Wait → Receiving U × Next
  waited more s (p, armed) = more (record s { pool = p })
  waited more s (p, refused) = (record s { pool = p }, threw (system_error canceled))
  waited more s (p, suspended) = (record s { pool = p }, again)

  unfoldable pub receive_rounds :
      (Stream (Receiving U) → Bool) → List (Shot × List Gap) → Receiving U → Receiving U × Next
  receive_rounds ended [] s = (s, again)
  receive_rounds ended ((shot, gaps) ∷ rounds) s =
      let r = shoot consume shot s in
      onward (λ s'. waited (λ t. receive_rounds ended rounds t) s' (await_lease gaps s'.pool))
        r.context (settle (λ e. e == no_buffers) ended r)

abbrev pub is_positive : Code → Bool
is_positive (count n) = ltb 0 n
is_positive (failed e) = false

abbrev pub is_result : Code → Bool
is_result (count n) = true
is_result (failed e) = false

-- `!request.error && !request.bytes`.
abbrev pub at_end : {S : Type 0} → Stream S → Bool
at_end r = r.error == 0 && r.bytes == 0

unfoldable pub receive :
    {U : Type 0}
    → (U → Chunk → U × List ℕ × Reply)
    → List (Shot × List Gap)
    → Receiving U
    → Receiving U × Next
receive fn rounds s = receive_rounds is_positive (λ c. ok c) fn at_end rounds s

-- The sizes of a socket address and of the header of a received message.
abbrev pub metadata : ℕ
metadata = 128 + 16

unfoldable pub recvmsg :
    {U M : Type 0}
    → (Chunk → Result M)
    → (U → M → U × List ℕ × Reply)
    → ℕ
    → List (Shot × List Gap)
    → Receiving U
    → Result (Receiving U × Next)
recvmsg decode fn control rounds s = do
  throw_if (ltb s.pool.size (control + metadata)) invalid_argument
  ok (receive_rounds is_result decode fn never rounds s)
