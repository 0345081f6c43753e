-- ===== src/Loop/Tests.antt =====
-- The theorems about src/loop.cpp at concrete inputs. The heap of these is the vector kept sorted by
-- deadline.
use mathlib.Core.List.{Perm}
use mathlib.Core.List.Perm
use snowy.Prelude.{
  Option, some, ℕ, suc, ◌≤◌, ◌≡◌, refl, Bool, true, false, none, List, [], ◌∷◌, ◌++◌, map, leb,
  leb→le, ◌==◌, All, All-map, if◌then◌else◌, if_cases, arith,
}
use snowy.Loop.{Loop, Timer, Io, Work, create, send, stop, fail, finish}
use snowy.Loop.Heap.{StdHeap}
use snowy.Loop.Expire.{expire, cancel_pass, pop_due}
use snowy.Loop.Due.{InOrder}
use snowy.Loop.Run.{
  next, detach, run as run_loop, rounds, round, try_expire, run_ready, raised, threw,
}
use snowy.Loop.Exit.{Decided, next_decides}
use snowy.Loop.Wake.{
  collect, asleep, Event, calls, sent, go, shared, decided, advance, step, run, has_news,
  sleeper_wakes,
}

abbrev insert : Timer → List Timer → List Timer
insert t [] = t ∷ []
insert t (u ∷ us) = let rest = insert t us in if leb t.due u.due then t ∷ u ∷ us else u ∷ rest

abbrev sorted : List Timer → List Timer
sorted [] = []
sorted (t ∷ ts) = insert t (sorted ts)

insert-perm : (t : Timer) (us : List Timer) → Perm (insert t us) (t ∷ us)
insert-perm t [] = Perm.refl (t ∷ [])
insert-perm t (u ∷ us) =
    let ih = insert-perm t us in
    if_cases (λ r. Perm r (t ∷ u ∷ us)) (leb t.due u.due) (t ∷ u ∷ us) (u ∷ insert t us)
      (λ _. Perm.refl _) (λ _. Perm.trans (Perm.cons u ih) (Perm.swap t u us))

sorted-perm : (ts : List Timer) → Perm (sorted ts) ts
sorted-perm [] = Perm.refl []
sorted-perm (t ∷ ts) = Perm.trans (insert-perm t (sorted ts)) (Perm.cons t (sorted-perm ts))

insert-All :
    (P : Timer → Type 0) (t : Timer) (us : List Timer) → P t → All P us → All P (insert t us)
insert-All P t [] p h = (p, tt)
insert-All P t (u ∷ us) p h =
    let ih = insert-All P t us p h.1 in
    if_cases (All P) (leb t.due u.due) (t ∷ u ∷ us) (u ∷ insert t us) (λ _. (p, h)) (λ _. (h.0, ih))

insert-InOrder : (t : Timer) (us : List Timer) → InOrder us → InOrder (insert t us)
insert-InOrder t [] h = (tt, tt)
insert-InOrder t (u ∷ us) h =
    let ih = insert-InOrder t us h.1 in
    if_cases InOrder (leb t.due u.due) (t ∷ u ∷ us) (u ∷ insert t us)
      (λ e. (
        (
          leb→le _ _ e,
          All-map (λ v. u.due ≤ v.due) (λ v. t.due ≤ v.due) us (λ v g. leb_trans e g) h.0,
        ),
        h,
      ))
      (λ e. (insert-All (λ v. u.due ≤ v.due) t us (later e) h.0, ih))
  where
    leb_trans : {a b c : ℕ} → leb a b ≡ true → b ≤ c → a ≤ c
    leb_trans e g = ground arith

    later : {a b : ℕ} → leb a b ≡ false → b ≤ a
    later e = ground arith

sorted-InOrder : (ts : List Timer) → InOrder (sorted ts)
sorted-InOrder [] = tt
sorted-InOrder (t ∷ ts) = insert-InOrder t (sorted ts) (sorted-InOrder ts)

-- The front moved to the back.
abbrev rotate : List Timer → List Timer
rotate [] = []
rotate (t ∷ ts) = ts ++ (t ∷ [])

abbrev sorted_heap : StdHeap
sorted_heap = record {
  push_heap = sorted;
  pop_heap = rotate;
  make_heap = sorted;
  IsHeap = InOrder;
  front_first = λ t ts h. h.0;
  push_IsHeap = λ ts t h. sorted-InOrder (ts ++ (t ∷ []));
  push_perm = sorted-perm;
  pop_moves = λ t ts h. (ts, refl, h.1, Perm.refl ts);
  make_IsHeap = sorted-InOrder;
  make_perm = sorted-perm;
}

abbrev timer : ℕ → ℕ → Bool → Timer
timer id due canceled = record { id = id; due = due; canceled = canceled }

-- A canceled timer, one that is due at 20 and one that is not, a wait and a request.
abbrev occupied : Loop
occupied = record (create 2) {
  ready = finish 9 none [];
  timers = timer 1 10 true ∷ timer 2 20 false ∷ timer 3 30 false ∷ [];
  waits = record { id = 4; interruptible = true; canceled = false; hook = none } ∷ [];
  ios = record { id = 5; canceled = false; canceling = false; cancel_sent = false } ∷ [];
  cancel = true;
}

occupied-InOrder : InOrder occupied.timers
unfolding create
occupied-InOrder = ((omega arith, (omega arith, tt)), ((omega arith, tt), (tt, tt)))

expired_ready : map (λ (w : Work). w.id) (expire sorted_heap occupied 20).ready ≡ 9 ∷ 1 ∷ 2 ∷ []
unfolding expire cancel_pass pop_due create
expired_ready = refl

next_decides_example : Decided occupied 20 (next occupied 20)
next_decides_example = next_decides sorted_heap occupied 20 occupied-InOrder

-- Every coroutine queues one more.
abbrev resume : Work → Loop → Loop
resume w l = record l { ready = finish (suc w.id) none l.ready }

-- The loop falls asleep for its timer, then a message comes.
abbrev calm : Loop
calm = record (create 2) { timers = timer 3 30 false ∷ [] }

abbrev events : List Event
events = go 0 false ∷ go 0 false ∷ go 0 false ∷ calls (sent 7) ∷ []

asleep_then : (run sorted_heap (record { loop = calm; phase = collect }) events).phase ≡ asleep
unfolding run step advance shared decided next expire detach create pop_due
asleep_then = refl

with_news : has_news (run sorted_heap (record { loop = calm; phase = collect }) events).loop ≡ true
unfolding run step advance shared send decided next expire detach create pop_due
with_news = refl

sleeper_wakes_example :
    (step sorted_heap
      (run sorted_heap (record { loop = calm; phase = collect }) events)
      (go 1 false)).phase
    ≡ collect
sleeper_wakes_example = sleeper_wakes sorted_heap calm events 1 asleep_then with_news

-- A posted function throws; the others only return.
abbrev throws : ℕ → Loop → Loop × Option ℕ
throws fn l = (l, some 5)

abbrev ignore : ℕ → Loop → Loop
ignore m l = l

abbrev done_at_once : Work → Loop → Loop
done_at_once w l = l

abbrev no_wait : Option ℕ → Loop → Loop × Option ℕ
no_wait d l = (l, none)

abbrev no_throw : Io → Option ℕ
no_throw op = none

abbrev busy_at_seven : Io → Option ℕ
busy_at_seven op = if op.id == 7 then some 16 else none

abbrev with_post : Loop
with_post = record (create 2) { posts = 1 ∷ [] }

raises :
    run_loop sorted_heap throws ignore done_at_once no_throw no_wait ((0, 0) ∷ []) with_post
    ≡ raised 5 (record (create 2) { stopping = true; signaled = true })
unfolding run_loop rounds round create detach try_expire expire cancel_pass pop_due run_ready next
    fail stop
raises = refl

-- The second request cannot be canceled: the first is, and the wait stays.
abbrev stuck : Loop
stuck = record (create 2) {
  waits = record { id = 4; interruptible = true; canceled = false; hook = none } ∷ [];
  ios =
      record { id = 6; canceled = true; canceling = false; cancel_sent = false }
      ∷ record { id = 7; canceled = true; canceling = false; cancel_sent = false }
      ∷ [];
  stopping = true;
  cancel = true;
}

cancel_throws :
    run_loop sorted_heap throws ignore done_at_once busy_at_seven no_wait ((0, 0) ∷ []) stuck
    ≡ threw 16 (record stuck {
      ios =
          record { id = 6; canceled = true; canceling = true; cancel_sent = true }
          ∷ record { id = 7; canceled = true; canceling = false; cancel_sent = false }
          ∷ [];
      cancel = false;
    })
unfolding run_loop rounds round create detach try_expire
cancel_throws = refl
