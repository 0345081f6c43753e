-- ===== src/Futex/Notify.antt =====
-- Whom the two notifications of futex.hpp wake.
use snowy.Prelude.{
  ℕ, zero, suc, ◌≡◌, ◌≤◌, refl, Bool, false, none, some, List, [], ◌∷◌, ◌++◌, map, arith,
  if◌then◌else◌, ap, sym, ◌∙◌, append-nil, append_assoc, length, ◌⊎◌, inl, inr,
}
use snowy.Errc.{operation_canceled}
use snowy.WaitQueue.{Waiter, front, is_due, deliver}
use snowy.WaitQueue.Front.{due, left, canceled_waiter, front_lem, due-left, left-live}
use snowy.Futex.{Futex, notify_one, notify_loop, notify_all, deliver_first}

module _ (stopped : ℕ → Bool) where
  -- A waiter as `notify_all` delivers it.
  abbrev pub woken : Waiter ℕ → Waiter ℕ
  woken w = record w { error = (if is_due stopped w then some operation_canceled else none) }

  notify_loop_lem :
      (fuel : ℕ) (ws sent : List (Waiter ℕ))
      → length ws ≤ fuel
      → notify_loop stopped fuel ws sent ≡ ([], sent ++ map woken ws)
  unfolding notify_loop front
  notify_loop_lem zero [] sent h = ground (arith, append-nil sent)
  notify_loop_lem (suc fuel) [] sent h = ground (arith, append-nil sent)
  notify_loop_lem zero (w ∷ ws) sent h = absurd (omega arith)
  notify_loop_lem (suc fuel) (w ∷ ws) sent h = ground (
    arith,
    notify_loop_lem (suc fuel) ws (deliver (some operation_canceled) w sent),
    notify_loop_lem fuel ws (deliver none w sent),
    append_assoc sent (woken w ∷ []) (map woken ws),
  )

  -- `notify_all` delivers every waiter, in order, and leaves none: those that are due with
  -- `operation_canceled`, all others with no error. It does not touch the value.
  pub notify_all_wakes :
      (f : Futex)
      → ((notify_all stopped f).waiters ≡ [])
        × ((notify_all stopped f).sent ≡ f.sent ++ map woken f.waiters)
        × ((notify_all stopped f).value ≡ f.value)
  unfolding notify_all
  notify_all_wakes f =
      let e = notify_loop_lem (length f.waiters) f.waiters f.sent (omega arith) in
      (ap (λ r. r.0) e, ap (λ r. r.1) e, refl)

  -- What `notify_one` does: the canceled waiters before the first live one are delivered, and then
  -- that one, if there is any, with no error; the waiters behind it stay.
  pub notify_one_wakes :
      (f : Futex)
      → ((left stopped f.waiters ≡ [])
          × (notify_one stopped f ≡ record f {
            waiters = [];
            sent = f.sent ++ map canceled_waiter (due stopped f.waiters);
          }))
        ⊎ ((w : Waiter ℕ) × (ws : List (Waiter ℕ)) × (f.waiters ≡ due stopped f.waiters ++ (w ∷ ws))
            × (is_due stopped w ≡ false)
            × (notify_one stopped f ≡ record f {
              waiters = ws;
              sent =
                  (f.sent ++ map canceled_waiter (due stopped f.waiters))
                  ++ (record w { error = none } ∷ []);
            }))
  unfolding notify_one
  notify_one_wakes f = rw (front_lem stopped f.waiters f.sent) (split (left stopped f.waiters) refl)
    where
      before : List (Waiter ℕ)
      before = f.sent ++ map canceled_waiter (due stopped f.waiters)

      split :
          (ws : List (Waiter ℕ))
          → left stopped f.waiters ≡ ws
          → ((ws ≡ []) × (deliver_first f ws before ≡ record f { waiters = []; sent = before }))
            ⊎ ((w : Waiter ℕ) × (us : List (Waiter ℕ)) × (f.waiters
                  ≡ due stopped f.waiters ++ (w ∷ us))
                × (is_due stopped w ≡ false)
                × (deliver_first f ws before
                    ≡ record f { waiters = us; sent = before ++ (record w { error = none } ∷ []) }))
      split [] e = inl (refl, refl)
      split (w ∷ us) e = inr (
        w,
        us,
        sym (due-left stopped f.waiters) ∙ ap (λ vs. due stopped f.waiters ++ vs) e,
        left-live stopped f.waiters e,
        refl,
      )
