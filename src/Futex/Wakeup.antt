-- ===== src/Futex/Wakeup.antt =====
-- No wakeup of futex.hpp is lost: the value is compared under the lock that orders notifications.
use snowy.Prelude.{
  ℕ, ◌+◌, ◌≡◌, refl, if◌then◌else◌, Bool, true, false, not, ◌&&◌, some, List, [], ◌∷◌, arith, ◌==◌,
  All, All-append, if_cases,
}
use snowy.WaitQueue.{Waiter, front, enqueue, canceled_now, interrupt, deliver}
use snowy.Errc.{operation_canceled}
use snowy.Futex.{Futex, wait, notify_one, notify_all, deliver_first}
use snowy.Futex.Notify.{notify_all_wakes}
use snowy.Futex.Kept.{
  hit, times, times_found, held, times-interrupt, held-notify_one, held-notify_all, held-wait,
}

-- What any thread may do to a futex and to its atomic.
pub data Event : Type 0 where
  waiting : Waiter ℕ → Bool → Bool → Event
  storing : ℕ → Event
  notifying_one notifying_all : Event
  interrupting : ℕ → Event

-- `unannounced` says that a value has been stored and not yet announced to all.
pub record Watched : Type 0 where
  pub futex : Futex
  pub unannounced : Bool

abbrev pub start : ℕ → Watched
start v = record { futex = record { value = v; waiters = []; sent = [] }; unannounced = false }

module _ (stopped : ℕ → Bool) where
  unfoldable pub step : Watched → Event → Watched
  step s (waiting w first second) = record s { futex = (wait stopped s.futex w first second).2 }
  step s (storing v) = record s { futex = record s.futex { value = v }; unannounced = true }
  step s notifying_one = record s { futex = notify_one stopped s.futex }
  step s notifying_all = record s { futex = notify_all stopped s.futex; unannounced = false }
  step s (interrupting id) = record s {
    futex = record s.futex { waiters = (interrupt id s.futex.waiters).1 };
  }

  unfoldable pub run : Watched → List Event → Watched
  run s [] = s
  run s (e ∷ es) = run (step s e) es

  -- Every waiter that is linked waits for the value that the atomic has.
  abbrev pub Waits : Futex → Type 0
  Waits f = All (λ (w : Waiter ℕ). w.payload ≡ f.value) f.waiters

  abbrev Quiet : Watched → Type 0
  Quiet s = s.unannounced ≡ false → Waits s.futex

  abbrev AllWait : ℕ → List (Waiter ℕ) → Type 0
  AllWait v ws = All (λ (w : Waiter ℕ). w.payload ≡ v) ws

  front-AllWait :
      (v : ℕ) (ws sent : List (Waiter ℕ)) → AllWait v ws → AllWait v (front stopped ws sent).0
  unfolding front
  front-AllWait v [] sent a = tt
  front-AllWait v (w ∷ ws) sent a =
      ground (arith, front-AllWait v ws (deliver (some operation_canceled) w sent) a.1)

  interrupt-AllWait :
      (v id : ℕ) (ws : List (Waiter ℕ)) → AllWait v ws → AllWait v (interrupt id ws).1
  unfolding interrupt
  interrupt-AllWait v id [] a = tt
  interrupt-AllWait v id (w ∷ ws) a = ground (arith, interrupt-AllWait v id ws a.1)

  deliver_first-Waits :
      (f : Futex) (ws sent : List (Waiter ℕ)) → AllWait f.value ws → Waits (deliver_first f ws sent)
  deliver_first-Waits f [] sent a = tt
  deliver_first-Waits f (w ∷ ws) sent a = a.1

  wait-Waits :
      (f : Futex) (w : Waiter ℕ) (first second : Bool)
      → Waits f
      → Waits (wait stopped f w first second).2
  unfolding wait enqueue
  wait-Waits f w first second a =
      if_cases (λ (r : Bool × Waiter ℕ × Futex). Waits r.2)
        (w.interruptible && canceled_now stopped w.owner first) _ _ (λ _. a)
        λ _.
          if_cases (λ (r : Bool × Waiter ℕ × Futex). Waits r.2) (not (f.value == w.payload)) _ _
            (λ _. a)
            λ same.
              if_cases (λ (r : Bool × Waiter ℕ × List (Waiter ℕ)). AllWait f.value r.2)
                (w.interruptible && canceled_now stopped w.owner second) _ _ (λ _. a)
                (λ _. All-append _ f.waiters (w ∷ []) a (ground arith, tt))

  step-Quiet : (s : Watched) (e : Event) → Quiet s → Quiet (step s e)
  unfolding step notify_one
  step-Quiet s (waiting w first second) q = λ u. wait-Waits s.futex w first second (q u)
  step-Quiet s (storing v) q = λ u. cc
  step-Quiet s notifying_one q = λ u.
      deliver_first-Waits s.futex _ _
        (front-AllWait s.futex.value s.futex.waiters s.futex.sent (q u))
  step-Quiet s notifying_all q = λ u. let (e, _, _) = notify_all_wakes stopped s.futex in rw e tt
  step-Quiet s (interrupting id) q = λ u. interrupt-AllWait s.futex.value id s.futex.waiters (q u)

  run-Quiet : (s : Watched) (es : List Event) → Quiet s → Quiet (run s es)
  unfolding run
  run-Quiet s [] q = q
  run-Quiet s (e ∷ es) q = run-Quiet (step s e) es (step-Quiet s e q)

  -- The suspensions of a waiter, and those that an interrupt ended.
  abbrev pub suspends : ℕ → Futex → Event → ℕ
  suspends k f (waiting w first second) = if (wait stopped f w first second).0 then hit k w else 0
  suspends k f _ = 0

  abbrev pub interrupts : ℕ → Futex → Event → ℕ
  interrupts k f (interrupting id) = times_found k (interrupt id f.waiters).0
  interrupts k f _ = 0

  unfoldable pub all_suspends : ℕ → Watched → List Event → ℕ
  all_suspends k s [] = 0
  all_suspends k s (e ∷ es) = suspends k s.futex e + all_suspends k (step s e) es

  unfoldable pub all_interrupts : ℕ → Watched → List Event → ℕ
  all_interrupts k s [] = 0
  all_interrupts k s (e ∷ es) = interrupts k s.futex e + all_interrupts k (step s e) es

  step-held :
      (k : ℕ) (s : Watched) (e : Event)
      → held k (step s e).futex + interrupts k s.futex e ≡ held k s.futex + suspends k s.futex e
  unfolding step
  step-held k s (waiting w first second) = omega (arith, held-wait stopped k s.futex w first second)
  step-held k s (storing v) = refl
  step-held k s notifying_one = omega (arith, held-notify_one stopped k s.futex)
  step-held k s notifying_all = omega (arith, held-notify_all stopped k s.futex)
  step-held k s (interrupting id) = omega (arith, times-interrupt k id s.futex.waiters)

  run-held :
      (k : ℕ) (s : Watched) (es : List Event)
      → held k (run s es).futex + all_interrupts k s es ≡ held k s.futex + all_suspends k s es
  unfolding run all_suspends all_interrupts
  run-held k s [] = refl
  run-held k s (e ∷ es) = omega (arith, run-held k (step s e) es, step-held k s e)

  -- No wakeup is lost: after any steps of any threads on a new futex, if each stored value has been
  -- announced by a later `notify_all`, the waiters that are still linked wait for the value that the
  -- atomic has now, and each suspension of a waiter is still linked, was delivered to its loop, or was
  -- taken out by an interrupt. Nobody sleeps on a value that is gone, and nobody is forgotten.
  pub no_lost_wakeup :
      (v : ℕ) (es : List Event)
      → (run (start v) es).unannounced ≡ false
      → Waits (run (start v) es).futex
        × ((k : ℕ)
            → times k (run (start v) es).futex.waiters
                + times k (run (start v) es).futex.sent
                + all_interrupts k (start v) es
              ≡ all_suspends k (start v) es)
  no_lost_wakeup v es u =
      (run-Quiet (start v) es (λ _. tt) u, λ k. omega (arith, run-held k (start v) es))
