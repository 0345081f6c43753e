-- ===== src/Channel/History.antt =====
-- Every operation on a channel of channel.hpp, those that come from the loop included, keeps it
-- valid.
use snowy.Prelude.{ℕ, ◌≤◌, ◌≡◌, refl, Bool, List, [], ◌∷◌, map, arith, All, ap, ◌∙◌}
use snowy.Buffer.{Buffer, capacity}
use snowy.Buffer.Contents.{max_slots, allocate-Holds}
use snowy.Channel.{Node, Channel, create, close}
use snowy.Channel.Control.{mark, request_cancel, stop, sweep_node, sweep, unlink, destroy}
use snowy.Channel.Invariant.{IsValid, Payload, Queued, Queued-tail}
use snowy.Channel.Steps.{
  Op, transfer, closing, sweeping, stopping, canceling, destroying, step, run,
}
use snowy.Channel.Fifo.{move_fifo}

module _ {T : Type 0} where
  -- What keeps the direction and the value of each waiter keeps the queue in order.
  abbrev Keeps : (Node T → Node T) → Type 0
  Keeps f = (w : Node T) → ((f w).sending ≡ w.sending) × ((f w).value ≡ w.value)

  map-same :
      (f : Node T → Node T) (d : Bool) (ws : List (Node T))
      → Keeps f
      → All (λ (n : Node T). n.sending ≡ d) ws
      → All (λ (n : Node T). n.sending ≡ d) (map f ws)
  map-same f d [] k a = tt
  map-same f d (w ∷ ws) k a = ((k w).0 ∙ a.0, map-same f d ws k a.1)

  map-Queued :
      (f : Node T → Node T) (b : Buffer T) (ws : List (Node T))
      → Keeps f
      → Queued b ws
      → Queued b (map f ws)
  map-Queued f b [] k q = tt
  map-Queued f b (w ∷ ws) k q = rw (k w).0 (map-same f w.sending ws k q.0, q.1)

  map-Payload :
      (f : Node T → Node T) (ws : List (Node T)) → Keeps f → All Payload ws → All Payload (map f ws)
  map-Payload f [] k p = tt
  map-Payload f (w ∷ ws) k p = (rw ((k w).0, (k w).1) p.0, map-Payload f ws k p.1)

  map-IsValid :
      (c : Channel T) (xs : List T) (f : Node T → Node T) (ready : List (Node T))
      → Keeps f
      → IsValid c xs
      → IsValid (record c { waiters = map f c.waiters; ready = ready }) xs
  map-IsValid c xs f ready k v = record {
    holds = v.holds;
    payload = map-Payload f c.waiters k v.payload;
    queued = map-Queued f c.buffer c.waiters k v.queued;
    drained = λ d. ap (map f) (v.drained d);
  }

  unlink-same :
      (id : ℕ) (d : Bool) (ws : List (Node T))
      → All (λ (n : Node T). n.sending ≡ d) ws
      → All (λ (n : Node T). n.sending ≡ d) (unlink id ws)
  unfolding unlink
  unlink-same id d [] a = tt
  unlink-same id d (w ∷ ws) a = ground (arith, unlink-same id d ws a.1)

  unlink-Payload : (id : ℕ) (ws : List (Node T)) → All Payload ws → All Payload (unlink id ws)
  unfolding unlink
  unlink-Payload id [] p = tt
  unlink-Payload id (w ∷ ws) p = ground (arith, unlink-Payload id ws p.1)

  unlink-Queued :
      (id : ℕ) (b : Buffer T) (ws : List (Node T)) → Queued b ws → Queued b (unlink id ws)
  unfolding unlink
  unlink-Queued id b [] q = tt
  unlink-Queued id b (w ∷ ws) q =
      ground (arith, Queued-tail b w ws q, unlink-same id w.sending ws q.0)

  close-IsValid : (c : Channel T) (xs : List T) → IsValid c xs → IsValid (close c) xs
  unfolding close
  close-IsValid c xs v = record { holds = v.holds; payload = tt; queued = tt; drained = λ _. refl }

  destroy-IsValid :
      (c : Channel T) (xs : List T) (id : ℕ) → IsValid c xs → IsValid (destroy c id) xs
  unfolding destroy unlink
  destroy-IsValid c xs id v = record {
    holds = v.holds;
    payload = unlink-Payload id c.waiters v.payload;
    queued = unlink-Queued id c.buffer c.waiters v.queued;
    drained = λ d. ap (unlink id) (v.drained d);
  }

  -- Every operation keeps a channel valid: the buffer within its slots, all waiters of one
  -- direction, senders only on a full buffer and receivers only on an empty one, each sender with
  -- its value, and no waiter on a closed channel.
  pub step-IsValid :
      (c : Channel T) (xs : List T) (o : Op T)
      → IsValid c xs
      → (ys : List T) × IsValid (step c o) ys
  unfolding step sweep stop request_cancel
  step-IsValid c xs (transfer t) v = let (ys, w, _) = move_fifo c xs t v in (ys, w)
  step-IsValid c xs closing v = (xs, close-IsValid c xs v)
  step-IsValid c xs sweeping v =
      (xs, map-IsValid c xs (sweep_node c.stopped) _ (λ w. (ground arith, ground arith)) v)
  step-IsValid c xs stopping v =
      (xs, record { holds = v.holds; payload = v.payload; queued = v.queued; drained = v.drained })
  step-IsValid c xs (canceling id) v =
      (xs, map-IsValid c xs (mark id) c.ready (λ w. (ground arith, ground arith)) v)
  step-IsValid c xs (destroying id) v = (xs, destroy-IsValid c xs id v)

  run-IsValid :
      (c : Channel T) (xs : List T) (os : List (Op T))
      → IsValid c xs
      → (ys : List T) × IsValid (run c os) ys
  unfolding run
  run-IsValid c xs [] v = (xs, v)
  run-IsValid c xs (o ∷ os) v =
      let (ys, w) = step-IsValid c xs o v in run-IsValid (step c o) ys os w

  -- A new channel of at most `max_slots` slots is valid after any history of operations: its
  -- buffer is within its slots, all its waiters have one direction, senders wait only on a full
  -- buffer and receivers only on an empty one, each sender has its value, and a closed channel
  -- has no waiter.
  pub run-create-IsValid :
      (capacity : ℕ) (os : List (Op T))
      → capacity ≤ max_slots
      → (ys : List T) × IsValid (run (create capacity) os) ys
  unfolding create
  run-create-IsValid capacity os h =
      run-IsValid (create capacity) [] os (record {
        holds = allocate-Holds capacity h;
        payload = tt;
        queued = tt;
        drained = λ _. refl;
      })
