-- ===== src/WaitQueue/Front.antt =====
-- What `front` of wait_queue.hpp leaves and delivers.
use snowy.Prelude.{
  ℕ, ◌≡◌, refl, Bool, false, some, List, [], ◌∷◌, ◌++◌, map, arith, if◌then◌else◌, append-nil,
  append_assoc,
}
use snowy.Errc.{operation_canceled}
use snowy.WaitQueue.{Waiter, front, is_due, deliver}

-- A waiter as `front` delivers it.
abbrev pub canceled_waiter : {P : Type 0} → Waiter P → Waiter P
canceled_waiter w = record w { error = some operation_canceled }

module _ {P : Type 0} (stopped : ℕ → Bool) where
  -- The waiters before the first that is not due, and those from it on.
  abbrev pub due : List (Waiter P) → List (Waiter P)
  due [] = []
  due (w ∷ ws) = let rest = due ws in if is_due stopped w then w ∷ rest else []

  abbrev pub left : List (Waiter P) → List (Waiter P)
  left [] = []
  left (w ∷ ws) = let rest = left ws in if is_due stopped w then rest else w ∷ ws

  -- `front` delivers exactly the waiters that are due before the first live one, in order, each
  -- with `operation_canceled`, and leaves the rest linked.
  pub front_lem :
      (ws sent : List (Waiter P))
      → front stopped ws sent ≡ (left ws, sent ++ map canceled_waiter (due ws))
  unfolding front
  front_lem [] sent = ground (arith, append-nil sent)
  front_lem (w ∷ ws) sent = ground (
    arith,
    front_lem ws (deliver (some operation_canceled) w sent),
    append_assoc sent (canceled_waiter w ∷ []) (map canceled_waiter (due ws)),
    append-nil sent,
  )

  pub due-left : (ws : List (Waiter P)) → due ws ++ left ws ≡ ws
  due-left [] = refl
  due-left (w ∷ ws) = ground (arith, due-left ws)

  pub left-live :
      (ws : List (Waiter P)) {w : Waiter P} {us : List (Waiter P)}
      → left ws ≡ w ∷ us
      → is_due stopped w ≡ false
  left-live [] e = ground arith
  left-live (v ∷ vs) {w} {us} e = ground (arith, left-live vs {w = w} {us = us})
