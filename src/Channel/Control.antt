-- ===== src/Channel/Control.antt =====
-- What reaches a waiter of channel.hpp from outside the channel: the stop callback and the sweep
-- of `loop::expire` (src/loop.cpp), `loop::stop`, and the destructor of a node.
use snowy.Prelude.{ℕ, Bool, true, false, ◌&&◌, ◌||◌, List, [], ◌∷◌, map, ◌==◌, if◌then◌else◌}
use snowy.Errc.{operation_canceled}
use snowy.Channel.{Node, Channel, notify, fail}

module _ {T : Type 0} where
  -- `cancel_fn`: the node is marked, and its loop will sweep.
  abbrev pub mark : ℕ → Node T → Node T
  mark id w = if w.id == id && w.active then record w { canceled = true } else w

  unfoldable pub request_cancel : Channel T → ℕ → Channel T
  request_cancel c id = record c { waiters = map (mark id) c.waiters }

  unfoldable pub stop : Channel T → Channel T
  stop c = record c { stopped = true }

  -- Whether the sweep completes this waiter.
  abbrev pub is_swept : Bool → Node T → Bool
  is_swept all w = w.active && (all || w.canceled)

  -- The sweep leaves the node linked, inactive and with its error.
  abbrev pub sweep_node : Bool → Node T → Node T
  sweep_node all w =
      if is_swept all w then record (fail operation_canceled w) { active = false } else w

  -- The list `waits_` has the latest wait first, so the ready queue gets the waiters backwards.
  unfoldable pub sweep_ready : Bool → List (Node T) → List (Node T) → List (Node T)
  sweep_ready all [] ready = ready
  sweep_ready all (w ∷ ws) ready =
      let later = sweep_ready all ws ready in
      if is_swept all w then notify (fail operation_canceled w) later else later

  unfoldable pub sweep : Channel T → Channel T
  sweep c = record c {
    waiters = map (sweep_node c.stopped) c.waiters;
    ready = sweep_ready c.stopped c.waiters c.ready;
  }

  -- `~node`: unlink it, if it is linked.
  unfoldable pub unlink : ℕ → List (Node T) → List (Node T)
  unlink id [] = []
  unlink id (w ∷ ws) = if w.id == id then ws else w ∷ unlink id ws

  unfoldable pub destroy : Channel T → ℕ → Channel T
  destroy c id = record c { waiters = unlink id c.waiters }
