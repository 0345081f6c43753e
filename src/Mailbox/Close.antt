-- ===== src/Mailbox/Close.antt =====
-- What `close` of mailbox.hpp tells the waiters, and the validity of a mailbox when the world
-- outside it moves: loops that stop, waiters that their loops interrupt.
use snowy.Prelude.{
  ℕ, zero, suc, ◌≡◌, ◌≤◌, refl, Bool, true, some, List, [], ◌∷◌, ◌++◌, map, arith, if◌then◌else◌,
  ap, append-nil, append_assoc, length,
}
use snowy.Errc.{operation_canceled}
use snowy.WaitQueue.{Waiter, front, is_due, deliver}
use snowy.Mailbox.{Mailbox, Parcel, close_error, close_loop, close}

module _ {T : Type 0} (stopped : ℕ → Bool) where
  -- A waiter as `close` delivers it: one that is due is canceled, a live sender is refused, a live
  -- receiver completes with no value.
  abbrev pub told : Waiter (Parcel T) → Waiter (Parcel T)
  told w = record w {
    error = (if is_due stopped w then some operation_canceled else close_error w);
  }

  -- The loop ends with no waiter left, on as many rounds as there are waiters.
  pub close_loop_lem :
      (fuel : ℕ) (ws sent : List (Waiter (Parcel T)))
      → length ws ≤ fuel
      → close_loop stopped fuel ws sent ≡ ([], sent ++ map told ws)
  unfolding close_loop front
  close_loop_lem zero [] sent h = ground (arith, append-nil sent)
  close_loop_lem (suc fuel) [] sent h = ground (arith, append-nil sent)
  close_loop_lem zero (w ∷ ws) sent h = absurd (omega arith)
  close_loop_lem (suc fuel) (w ∷ ws) sent h = ground (
    arith,
    close_loop_lem (suc fuel) ws (deliver (some operation_canceled) w sent),
    close_loop_lem fuel ws (deliver (close_error w) w sent),
    append_assoc sent (told w ∷ []) (map told ws),
  )

  -- `close` delivers every waiter, in order, each to its own loop: a canceled one with
  -- `operation_canceled`, a live sender with `broken_pipe`, a live receiver with no error. No waiter
  -- is left, and no buffered value is dropped.
  pub mailbox_close_tells :
      (m : Mailbox T)
      → ((close stopped m).closed ≡ true)
        × ((close stopped m).waiters ≡ [])
        × ((close stopped m).sent ≡ m.sent ++ map told m.waiters)
        × ((close stopped m).buffer ≡ m.buffer)
  unfolding close
  mailbox_close_tells m =
      let e = close_loop_lem (length m.waiters) m.waiters m.sent (omega arith) in
      (refl, ap (λ r. r.0) e, ap (λ r. r.1) e, refl)
