-- ===== src/Channel/Close.antt =====
-- What a closed channel of channel.hpp does, what `close` tells the waiters, and what the sweep does.
use snowy.Prelude.{
  ℕ, ◌≡◌, refl, Bool, true, false, some, List, [], ◌∷◌, ◌++◌, map, reverse, arith, if◌then◌else◌,
  keep, append-nil, append_assoc, ap, sym, ◌∙◌, subst,
}
use mathlib.Core.List.{reverse-cons, map-append}
use snowy.Errc.{operation_canceled, broken_pipe}
use snowy.Channel.{
  Node, Channel, notify, fail, reject, close_all, close, try_send, try_recv, send, send_node, pop,
}
use snowy.Channel.Control.{is_swept, sweep_node, sweep_ready, sweep}
use snowy.Channel.Invariant.{IsValid, pending, blocked}
use snowy.Channel.Pop.{pop-Popped, head?, tail}
use snowy.Channel.Frame.{pop_frame}

module _ {T : Type 0} where
  -- A waiter as `close` completes it: a sender fails, a receiver gets nothing.
  abbrev pub closed_node : Node T → Node T
  closed_node w = record w {
    active = false;
    error = (if w.sending then some broken_pipe else w.error);
  }

  abbrev pub is_active : Node T → Bool
  is_active w = w.active

  close_all_lem : (ws r : List (Node T)) → close_all ws r ≡ r ++ map closed_node (keep is_active ws)
  unfolding close_all
  close_all_lem [] r = sym (append-nil r)
  close_all_lem (w ∷ ws) r = ground (
    arith,
    close_all_lem ws (notify (reject w) r),
    append_assoc r (closed_node w ∷ []) (map closed_node (keep is_active ws)),
  )

  -- `close` unlinks every waiter and completes each one that is still active, in order: a sender
  -- with `broken_pipe`, a receiver with no error. It drops no buffered value.
  pub close_tells :
      (c : Channel T)
      → ((close c).closed ≡ true)
        × ((close c).waiters ≡ [])
        × ((close c).buffer ≡ c.buffer)
        × ((close c).ready ≡ c.ready ++ map closed_node (keep is_active c.waiters))
  unfolding close
  close_tells c = (refl, refl, refl, close_all_lem c.waiters c.ready)

  -- A closed channel has no blocked senders.
  nothing_blocked :
      (c : Channel T) (xs : List T) → IsValid c xs → c.closed ≡ true → pending c xs ≡ xs
  nothing_blocked c xs i d = rw (i.drained d) (append-nil xs)

  -- A valid channel that is closed, its loop not stopped, gives what was buffered, oldest first,
  -- then nothing; it refuses every send that is not canceled; and it stays closed.
  pub closed_drains :
      (c : Channel T) (xs : List T) (id : ℕ) (v : T)
      → IsValid c xs
      → c.closed ≡ true
      → c.stopped ≡ false
      → ((try_recv c).0 ≡ head? xs)
        × IsValid (try_recv c).1 (tail xs)
        × ((try_recv c).1.closed ≡ true)
        × (try_send c v ≡ (false, c))
        × (send c id v false false ≡ (false, fail broken_pipe (send_node id v), c))
  unfolding try_recv try_send send
  closed_drains c xs id v i d s =
      let (ys, w, e, f, _, _) = pop-Popped c xs i in
      let shut : (pop c).1.closed ≡ true = (pop_frame c).0 ∙ d in
      let left : ys ≡ tail xs =
        sym (nothing_blocked (pop c).1 ys w shut) ∙ f ∙ ap tail (nothing_blocked c xs i d) in
      simp (s, d)
        (
          e ∙ ap head? (nothing_blocked c xs i d),
          subst (IsValid (pop c).1) left w,
          shut,
          refl,
          refl,
        )

  -- A waiter as the sweep completes it.
  abbrev pub canceled_node : Node T → Node T
  canceled_node w = record w { active = false; error = some operation_canceled }

  sweep_ready_lem :
      (all : Bool) (ws r : List (Node T))
      → sweep_ready all ws r ≡ r ++ map canceled_node (reverse (keep (is_swept all) ws))
  unfolding sweep_ready
  sweep_ready_lem all [] r = sym (append-nil r)
  sweep_ready_lem all (w ∷ ws) r = ground (
    arith,
    sweep_ready_lem all ws r,
    reverse-cons w (keep (is_swept all) ws),
    map-append canceled_node (reverse (keep (is_swept all) ws)) (w ∷ []),
    append_assoc r (map canceled_node (reverse (keep (is_swept all) ws))) (canceled_node w ∷ []),
  )

  sweep_once :
      (all : Bool) (ws : List (Node T)) → keep (is_swept all) (map (sweep_node all) ws) ≡ []
  sweep_once all [] = refl
  sweep_once all (w ∷ ws) = ground (arith, sweep_once all ws)

  sweep_blocked :
      (stopped : Bool) (ws : List (Node T))
      → blocked stopped (map (sweep_node stopped) ws) ≡ blocked stopped ws
  sweep_blocked stopped [] = refl
  sweep_blocked stopped (w ∷ ws) = ground (arith, sweep_blocked stopped ws)

  -- The sweep of the loop completes each active waiter that was canceled, and each active one once
  -- the loop is stopped, with `operation_canceled`, the latest first. A second sweep finds none of
  -- them, and the values in flight do not change.
  pub sweep_cancels :
      (c : Channel T) (xs : List T)
      → ((sweep c).ready
          ≡ c.ready ++ map canceled_node (reverse (keep (is_swept c.stopped) c.waiters)))
        × (keep (is_swept c.stopped) (sweep c).waiters ≡ [])
        × (pending (sweep c) xs ≡ pending c xs)
  unfolding sweep
  sweep_cancels c xs = (
    sweep_ready_lem c.stopped c.waiters c.ready,
    sweep_once c.stopped c.waiters,
    ap (λ vs. xs ++ vs) (sweep_blocked c.stopped c.waiters),
  )
