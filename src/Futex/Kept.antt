-- ===== src/Futex/Kept.antt =====
-- Where the waiters of futex.hpp are: each one that was suspended is linked, delivered or interrupted.
use snowy.Prelude.{
  ℕ, ◌+◌, ◌≡◌, refl, ap, Bool, ◌&&◌, not, Option, none, some, List, [], ◌∷◌, ◌++◌, map, ◌==◌,
  if◌then◌else◌, if_cases, arith,
}
use snowy.WaitQueue.{Waiter, front, enqueue, canceled_now, interrupt, deliver, is_due}
use snowy.Errc.{operation_canceled}
use snowy.Futex.{Futex, wait, notify_one, notify_all, deliver_first}
use snowy.Futex.Notify.{woken, notify_all_wakes}

abbrev pub hit : ℕ → Waiter ℕ → ℕ
hit k w = if w.id == k then 1 else 0

-- How often a waiter stands in a list.
abbrev pub times : ℕ → List (Waiter ℕ) → ℕ
times k [] = 0
times k (w ∷ ws) = hit k w + times k ws

-- The linked waiter that an interrupt takes out and that is then notified.
abbrev pub times_found : ℕ → Option (Waiter ℕ) → ℕ
times_found k none = 0
times_found k (some w) = hit k w

-- The waiters that are linked and those that were delivered.
abbrev pub held : ℕ → Futex → ℕ
held k f = times k f.waiters + times k f.sent

times-append : (k : ℕ) (xs ys : List (Waiter ℕ)) → times k (xs ++ ys) ≡ times k xs + times k ys
times-append k [] ys = omega arith
times-append k (x ∷ xs) ys = omega (arith, times-append k xs ys)

pub times-interrupt :
    (k id : ℕ) (ws : List (Waiter ℕ))
    → times k (interrupt id ws).1 + times_found k (interrupt id ws).0 ≡ times k ws
unfolding interrupt
times-interrupt k id [] = refl
times-interrupt k id (w ∷ ws) = ground (arith, times-interrupt k id ws)

module _ (stopped : ℕ → Bool) where
  times-front :
      (k : ℕ) (ws sent : List (Waiter ℕ))
      → times k (front stopped ws sent).0 + times k (front stopped ws sent).1
        ≡ times k ws + times k sent
  unfolding front
  times-front k [] sent = refl
  times-front k (w ∷ ws) sent =
      if_cases
        (λ (r : List (Waiter ℕ) × List (Waiter ℕ)).
          times k r.0 + times k r.1 ≡ times k (w ∷ ws) + times k sent)
        (is_due stopped w) _ _
        (λ _. omega (
          arith,
          times-front k ws (deliver (some operation_canceled) w sent),
          times-append k sent (record w { error = some operation_canceled } ∷ []),
        ))
        (λ _. refl)

  delivered_first :
      (k : ℕ) (f : Futex) (ws sent : List (Waiter ℕ))
      → held k (deliver_first f ws sent) ≡ times k ws + times k sent
  delivered_first k f [] sent = refl
  delivered_first k f (w ∷ ws) sent =
      omega (arith, times-append k sent (record w { error = none } ∷ []))

  pub held-notify_one : (k : ℕ) (f : Futex) → held k (notify_one stopped f) ≡ held k f
  unfolding notify_one
  held-notify_one k f = omega (
    arith,
    delivered_first k f (front stopped f.waiters f.sent).0 (front stopped f.waiters f.sent).1,
    times-front k f.waiters f.sent,
  )

  times-woken : (k : ℕ) (ws : List (Waiter ℕ)) → times k (map (woken stopped) ws) ≡ times k ws
  times-woken k [] = refl
  times-woken k (w ∷ ws) = omega (arith, times-woken k ws)

  pub held-notify_all : (k : ℕ) (f : Futex) → held k (notify_all stopped f) ≡ held k f
  held-notify_all k f =
      let (empty, sent, _) = notify_all_wakes stopped f in
      omega (
        arith,
        ap (times k) empty,
        ap (times k) sent,
        times-append k f.sent (map (woken stopped) f.waiters),
        times-woken k f.waiters,
      )

  pub held-wait :
      (k : ℕ) (f : Futex) (w : Waiter ℕ) (first second : Bool)
      → held k (wait stopped f w first second).2
        ≡ held k f + (if (wait stopped f w first second).0 then hit k w else 0)
  unfolding wait enqueue
  held-wait k f w first second =
      if_cases
        (λ (r : Bool × Waiter ℕ × Futex). held k r.2 ≡ held k f + (if r.0 then hit k w else 0))
        (w.interruptible && canceled_now stopped w.owner first) _ _ (λ _. omega arith)
        (λ _.
          if_cases
            (λ (r : Bool × Waiter ℕ × Futex). held k r.2 ≡ held k f + (if r.0 then hit k w else 0))
            (not (f.value == w.payload)) _ _ (λ _. omega arith)
            (λ _.
              if_cases
                (λ (r : Bool × Waiter ℕ × List (Waiter ℕ)).
                  times k r.2 + times k f.sent ≡ held k f + (if r.0 then hit k w else 0))
                (w.interruptible && canceled_now stopped w.owner second) _ _ (λ _. omega arith)
                (λ _. omega (arith, times-append k f.waiters (w ∷ [])))))
