-- ===== src/Channel/Frame.antt =====
-- The flags of a channel that `push` and `pop` of channel.hpp leave alone.
use snowy.Prelude.{◌≡◌, refl, none, some, Option, List, arith}
use snowy.Channel.{Node, Channel, push, push_to, pop, pop_from}

module _ {T : Type 0} where
  push_to_frame :
      (c : Channel T) (v : T) (o : Option (Node T) × List (Node T) × List (Node T))
      → let c' = (push_to (record c { waiters = o.1; ready = o.2 }) v o.0).1 in
        (c'.closed ≡ c.closed) × (c'.stopped ≡ c.stopped)
  push_to_frame c v (none, us, r) = (ground arith, ground arith)
  push_to_frame c v (some w, us, r) = (refl, refl)

  pub push_frame :
      (c : Channel T) (v : T)
      → ((push c v).1.closed ≡ c.closed) × ((push c v).1.stopped ≡ c.stopped)
  unfolding push
  push_frame c v = push_to_frame c v _

  pop_from_frame :
      (c : Channel T) (value : Option T) (w : Option (Node T))
      → let c' = (pop_from c value w).1 in (c'.closed ≡ c.closed) × (c'.stopped ≡ c.stopped)
  pop_from_frame c value none = (refl, refl)
  pop_from_frame c none (some s) = (refl, refl)
  pop_from_frame c (some v) (some s) = (refl, refl)

  pub pop_frame : (c : Channel T) → ((pop c).1.closed ≡ c.closed) × ((pop c).1.stopped ≡ c.stopped)
  unfolding pop
  pop_frame c = pop_from_frame _ _ _
