-- ===== src/Channel/Steps.antt =====
-- Every operation on a channel of channel.hpp as one step, and a history of steps.
use snowy.Prelude.{
  ℕ, Bool, true, false, none, some, List, [], ◌∷◌, ◌++◌, drop, length, if◌then◌else◌,
}
use snowy.Channel.{Channel, Node, try_send, try_recv, send, recv, close}
use snowy.Channel.Control.{request_cancel, sweep, stop, destroy}
use snowy.Channel.Invariant.{received, cons_value}

-- The operations that move values. The flags of `sending` and `receiving` are what the two looks at
-- the stop token see.
pub data Transfer (T : Type 0) : Type 0 where
  trying_send : T → Transfer T
  trying_recv : Transfer T
  sending : ℕ → T → Bool → Bool → Transfer T
  receiving : ℕ → Bool → Bool → Transfer T

pub data Op (T : Type 0) : Type 0 where
  transfer : Transfer T → Op T
  closing sweeping stopping : Op T
  canceling destroying : ℕ → Op T

module _ {T : Type 0} where
  unfoldable pub move : Channel T → Transfer T → Channel T
  move c (trying_send v) = (try_send c v).1
  move c trying_recv = (try_recv c).1
  move c (sending id v first second) = (send c id v first second).2
  move c (receiving id first second) = (recv c id first second).2

  unfoldable pub step : Channel T → Op T → Channel T
  step c (transfer t) = move c t
  step c closing = close c
  step c sweeping = sweep c
  step c stopping = stop c
  step c (canceling id) = request_cancel c id
  step c (destroying id) = destroy c id

  unfoldable pub run : Channel T → List (Op T) → Channel T
  run c [] = c
  run c (o ∷ os) = run (step c o) os

  -- The value that a transfer puts in flight, if the channel accepts it: a send that fails gives
  -- its caller an error or `false`.
  abbrev pub accepted_send : T → Bool × Node T × Channel T → List T
  accepted_send v (true, n, c) = v ∷ []
  accepted_send v (false, n, c) = elim n.error [ none ↦ v ∷ [] | some e ↦ [] ]

  unfoldable pub accepted : Channel T → Transfer T → List T
  accepted c (trying_send v) = if (try_send c v).0 then v ∷ [] else []
  accepted c trying_recv = []
  accepted c (sending id v first second) = accepted_send v (send c id v first second)
  accepted c (receiving id first second) = []

  -- The value that a transfer hands its own caller.
  unfoldable pub returned : Channel T → Transfer T → List T
  returned c (trying_send v) = []
  returned c trying_recv = cons_value (try_recv c).0 []
  returned c (sending id v first second) = []
  returned c (receiving id first second) = cons_value (recv c id first second).1.value []

  -- The values that it hands to waiting receivers, through the ready queue.
  unfoldable pub handed : Channel T → Transfer T → List T
  handed c t = drop (length (received c.ready)) (received (move c t).ready)

  -- All that a sequence of transfers accepts, and all that it delivers, in order.
  unfoldable pub all_accepted : Channel T → List (Transfer T) → List T
  all_accepted c [] = []
  all_accepted c (t ∷ ts) = accepted c t ++ all_accepted (move c t) ts

  unfoldable pub all_delivered : Channel T → List (Transfer T) → List T
  all_delivered c [] = []
  all_delivered c (t ∷ ts) = returned c t ++ (handed c t ++ all_delivered (move c t) ts)

  unfoldable pub moves : Channel T → List (Transfer T) → Channel T
  moves c [] = c
  moves c (t ∷ ts) = moves (move c t) ts
