-- ===== src/Loop/Wake.antt =====
-- How the other threads wake a loop: the wake source, the check for posted work and the poll of
-- `loop::run` in src/loop.cpp, with `send`, `post`, `stop`, the release of a `keep_alive` and what
-- the loop's own coroutines call at any point between them.
use snowy.Prelude.{
  ℕ, ◌≡◌, refl, sym, ap, subst, ap₂, ◌∙◌, Bool, true, false, not, ◌&&◌, ◌||◌, List, [], ◌∷◌, ◌++◌,
  is_empty, length, ◌==◌, if◌then◌else◌, if_cases, arith,
}
use snowy.Loop.{
  Loop, Wait, Timer, Target, request_cancel, send, post, stop, fail, arm, hold, release, schedule,
  park,
}
use snowy.Loop.Heap.{StdHeap}
use snowy.Loop.Expire.{cancel_pass, expire, start_timer}
use snowy.Loop.Run.{Next, leave, again, poll, detach, next, is_posted, may_wait}
use snowy.Loop.Exit.{Idle, next-Idle}

-- Where the owner thread is in a round of `run`.
pub data Phase : Type 0 where
  -- Before the posts and messages are taken.
  collect : Phase
  -- Before `expire`.
  sweep : Phase
  -- Before the decision on the poll.
  check : Phase
  -- In a poll that waits.
  asleep : Phase
  left : Phase

-- What other threads and the loop's own coroutines call.
pub data Call : Type 0 where
  sent : ℕ → Call
  posted : ℕ → Call
  stopped : Call
  failed : ℕ → Call
  held : Call
  released : Call
  scheduled : ℕ → Call
  parked : Wait → Bool → Call
  started : Timer → Bool → Call
  -- The stop callback of an operation.
  requested_stop : Target → Call

pub data Event : Type 0 where
  calls : Call → Event
  -- The owner thread goes on at this time. A poll that waits ends by itself with true, when a
  -- request or the delay is over.
  go : ℕ → Bool → Event

pub record Thread : Type 0 where
  pub loop : Loop
  pub phase : Phase

-- A poll takes the signal of the wake source back.
abbrev pub polled : Loop → Thread
polled l = record { loop = record l { signaled = false }; phase = collect }

unfoldable pub decided : Next → Loop → Thread
decided leave l = record { loop = l; phase = left }
decided again l = record { loop = l; phase = collect }
decided (poll d) l = if may_wait d then record { loop = l; phase = asleep } else polled l

module _ (heap : StdHeap) where
  unfoldable pub advance : Phase → Loop → ℕ → Bool → Thread
  advance collect l now over = record { loop = detach l; phase = sweep }
  advance sweep l now over = record { loop = expire heap l now; phase = check }
  advance check l now over = decided (next l now) l
  advance asleep l now over =
      if l.signaled || over then polled l else record { loop = l; phase = asleep }
  advance left l now over = record { loop = l; phase = left }

  unfoldable pub shared : Loop → Call → Loop
  shared l (sent m) = send l m
  shared l (posted fn) = post l fn
  shared l stopped = stop l
  shared l (failed e) = fail l e
  shared l held = hold l
  shared l released = release l
  shared l (scheduled id) = schedule l id
  shared l (parked w requested) = (park l w requested).1
  shared l (started t requested) = (start_timer heap l t requested).1
  shared l (requested_stop target) = request_cancel target l

  unfoldable pub step : Thread → Event → Thread
  step s (go now over) = advance s.phase s.loop now over
  step s (calls c) = record s { loop = shared s.loop c }

  unfoldable pub run : Thread → List Event → Thread
  run s [] = s
  run s (e ∷ es) = run (step s e) es

-- Something came from another thread and has not been looked at.
abbrev pub has_news : Loop → Bool
has_news l = is_posted l || l.cancel

abbrev pub Alert : Loop → Type 0
Alert l = has_news l ≡ true → l.signaled ≡ true

abbrev pub Heeds : Loop → Type 0
Heeds l = l.cancel ≡ true → l.signaled ≡ true

abbrev pub IsAwakeAt : Phase → Loop → Type 0
IsAwakeAt collect l = Unit
IsAwakeAt sweep l = Unit
IsAwakeAt check l = Heeds l
IsAwakeAt asleep l = Alert l
IsAwakeAt left l = Unit

abbrev pub IsAwake : Thread → Type 0
IsAwake s = IsAwakeAt s.phase s.loop

-- A loop that is as awake in every phase.
abbrev pub Rouses : Loop → Loop → Type 0
Rouses l l' = (Heeds l → Heeds l') × (Alert l → Alert l')

as_before :
    (l l' : Loop)
    → l'.cancel ≡ l.cancel
    → l'.signaled ≡ l.signaled
    → is_posted l' ≡ is_posted l
    → Rouses l l'
as_before l l' ec es ep =
    (λ h c. es ∙ h (sym ec ∙ c), λ h n. es ∙ h (sym (ap₂ (λ a b. a || b) ep ec) ∙ n))

filled_news :
    (fns ms : List ℕ) (c : Bool)
    → is_empty ms ≡ false
    → (not (is_empty fns) || not (is_empty ms)) || c ≡ true
filled_news fns ms c e = ground arith

send-Rouses : (l : Loop) (m : ℕ) → Rouses l (send l m)
unfolding send
send-Rouses l m =
    if_cases (Rouses l) (is_empty l.messages) _ _ (λ _. (λ h c. refl, λ h n. refl))
      (λ e. (λ h c. h c, λ h n. h (filled_news l.posts l.messages l.cancel e)))

posted_news :
    (fns ms : List ℕ) (c : Bool) (fn : ℕ)
    → length (fns ++ (fn ∷ [])) == 1 ≡ false
    → (not (is_empty fns) || not (is_empty ms)) || c ≡ true
posted_news [] ms c fn e = absurd (cc)
posted_news (f ∷ fns) ms c fn e = refl

post-Rouses : (l : Loop) (fn : ℕ) → Rouses l (post l fn)
unfolding post
post-Rouses l fn =
    if_cases (Rouses l) (length (l.posts ++ (fn ∷ [])) == 1) _ _ (λ _. (λ h c. refl, λ h n. refl))
      (λ e. (λ h c. h c, λ h n. h (posted_news l.posts l.messages l.cancel fn e)))

module _ (heap : StdHeap) where
  shared-Rouses : (l : Loop) (c : Call) → Rouses l (shared heap l c)
  unfolding shared stop fail hold release schedule park start_timer request_cancel
  shared-Rouses l (sent m) = send-Rouses l m
  shared-Rouses l (posted fn) = post-Rouses l fn
  shared-Rouses l stopped = (λ h c. refl, λ h n. refl)
  shared-Rouses l (failed e) = (λ h c. refl, λ h n. refl)
  shared-Rouses l held = as_before l (hold l) refl refl refl
  shared-Rouses l released = (λ h c. refl, λ h n. refl)
  shared-Rouses l (scheduled id) = as_before l (schedule l id) refl refl refl
  shared-Rouses l (parked w requested) =
      if_cases (λ (r : Bool × Loop). Rouses l r.1) (w.interruptible && not (arm l requested))
        (false, l) (true, record l { waits = w ∷ l.waits }) (λ _. as_before l l refl refl refl)
        (λ _. as_before l (record l { waits = w ∷ l.waits }) refl refl refl)
  shared-Rouses l (started t requested) =
      let armed = record l { timers = heap.push_heap (l.timers ++ (t ∷ [])) } in
      if_cases (λ (r : Bool × Loop). Rouses l r.1) (arm l requested) (true, armed) (false, l)
        (λ _. as_before l armed refl refl refl) (λ _. as_before l l refl refl refl)
  shared-Rouses l (requested_stop target) = (λ h c. refl, λ h n. refl)

  roused : (p : Phase) (l l' : Loop) → Rouses l l' → IsAwakeAt p l → IsAwakeAt p l'
  roused collect l l' r h = tt
  roused sweep l l' r h = tt
  roused check l l' r h = r.0 h
  roused asleep l l' r h = r.1 h
  roused left l l' r h = tt

  quiet_news : (l : Loop) → l.posts ≡ [] → l.messages ≡ [] → Heeds l → Alert l
  quiet_news l p m h n =
      h (sym (ap₂ (λ fns ms. (not (is_empty fns) || not (is_empty ms)) || l.cancel) p m) ∙ n)

  decided-IsAwake : (n : Next) (l : Loop) → Idle l n → Heeds l → IsAwake (decided n l)
  unfolding decided
  decided-IsAwake leave l k h = tt
  decided-IsAwake again l k h = tt
  decided-IsAwake (poll d) l k h =
      if_cases IsAwake (may_wait d) _ _ (λ e. let (_, p, m) = k e in quiet_news l p m h) (λ _. tt)

  expire_cleared : (l : Loop) (now : ℕ) → (expire heap l now).cancel ≡ false
  unfolding expire cancel_pass
  expire_cleared l now =
      if_cases (λ (s : Loop). s.cancel ≡ false) l.cancel (cancel_pass heap l) l (λ _. refl) (λ e. e)

  advance-IsAwake :
      (p : Phase) (l : Loop) (now : ℕ) (over : Bool)
      → IsAwakeAt p l
      → IsAwake (advance heap p l now over)
  unfolding advance
  advance-IsAwake collect l now over h = tt
  advance-IsAwake sweep l now over h = λ e. absurd (cc (expire_cleared l now, e))
  advance-IsAwake check l now over h = decided-IsAwake (next l now) l (next-Idle l now) h
  advance-IsAwake asleep l now over h = if_cases IsAwake (l.signaled || over) _ _ (λ _. tt) (λ _. h)
  advance-IsAwake left l now over h = tt

  step-IsAwake : (s : Thread) (e : Event) → IsAwake s → IsAwake (step heap s e)
  unfolding step
  step-IsAwake s (go now over) h = advance-IsAwake s.phase s.loop now over h
  step-IsAwake s (calls c) h =
      roused s.phase s.loop (shared heap s.loop c) (shared-Rouses s.loop c) h

  run-IsAwake : (s : Thread) (es : List Event) → IsAwake s → IsAwake (run heap s es)
  unfolding run
  run-IsAwake s [] h = h
  run-IsAwake s (e ∷ es) h = run-IsAwake (step heap s e) es (step-IsAwake s e h)

  Alert-wakes :
      (l : Loop) (now : ℕ)
      → Alert l
      → has_news l ≡ true
      → (advance heap asleep l now false).phase ≡ collect
  unfolding advance
  Alert-wakes l now h n =
      if_cases (λ (s : Thread). s.phase ≡ collect) (l.signaled || false) (polled l) _ (λ _. refl)
        (λ e. absurd (cc (ap (λ b. b || false) (h n), e)))

  wakes :
      (s : Thread) (now : ℕ)
      → s.phase ≡ asleep
      → IsAwake s
      → has_news s.loop ≡ true
      → (step heap s (go now false)).phase ≡ collect
  unfolding step
  wakes s now e h n =
      subst (λ p. IsAwakeAt p s.loop → (advance heap p s.loop now false).phase ≡ collect) (sym e)
        (λ k. Alert-wakes s.loop now k n) h

  -- From the start of any round and through any sequence of the calls of Call (messages, posts, stops,
  -- failures, holds, yields, waits, timers and stop callbacks) and of steps of the owner thread in which
  -- nothing throws, if the
  -- poll of the loop watches the wake source, which it does unless a draining request of the ring is in
  -- flight, a poll that waits while there is a posted function, a message or a request to cancel
  -- finds the wake source raised and ends as soon as the owner thread goes on: no wakeup is lost.
  pub sleeper_wakes :
      (l : Loop) (es : List Event) (now : ℕ)
      → (run heap (record { loop = l; phase = collect }) es).phase ≡ asleep
      → has_news (run heap (record { loop = l; phase = collect }) es).loop ≡ true
      → (step heap (run heap (record { loop = l; phase = collect }) es) (go now false)).phase
        ≡ collect
  sleeper_wakes l es now e n =
      wakes _ now e (run-IsAwake (record { loop = l; phase = collect }) es tt) n
