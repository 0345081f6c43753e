-- ===== src/Loop/Expire.antt =====
-- `timer::await_suspend` and `loop::expire` of src/loop.cpp.
use snowy.Prelude.{
  ℕ, zero, suc, Bool, true, false, not, ◌&&◌, ◌||◌, Option, none, some, List, [], ◌∷◌, ◌++◌, leb,
  if◌then◌else◌, length, keep, map,
}
use snowy.Errc.{operation_canceled}
use snowy.Loop.{Loop, Timer, Wait, Io, Work, arm, finish}
use snowy.Loop.Heap.{StdHeap}

abbrev pub canceled_work : ℕ → Work
canceled_work id = record { id = id; error = some operation_canceled }

-- The timers and waits that one cancellation pass ends.
abbrev pub timer_hit : Bool → Timer → Bool
timer_hit all t = all || t.canceled

abbrev pub can_interrupt : Option Bool → Bool
can_interrupt none = true
can_interrupt (some linked) = linked

abbrev pub wait_hit : Bool → Wait → Bool
wait_hit all w = w.interruptible && (all || w.canceled) && can_interrupt w.hook

-- `cancel`: the request to the kernel is marked as sent.
abbrev pub cancel_io : Bool → Io → Io
cancel_io all op =
    if not op.cancel_sent && (all || op.canceled)
    then record op { canceling = true; cancel_sent = true }
    else op

-- `pop_back` after `pop_heap`.
abbrev pub drop_last : List Timer → List Timer
drop_last [] = []
drop_last (t ∷ []) = []
drop_last (t ∷ u ∷ us) = t ∷ drop_last (u ∷ us)

module _ (heap : StdHeap) where
  unfoldable pub start_timer : Loop → Timer → Bool → Bool × Loop
  start_timer l t requested =
      if arm l requested
      then (true, record l { timers = heap.push_heap (l.timers ++ (t ∷ [])) })
      else (false, l)

  -- The pass over `timers_`, `io_` and `waits_` once `cancel_` was set.
  unfoldable pub cancel_pass : Loop → Loop
  cancel_pass l = record l {
    cancel = false;
    timers = heap.make_heap (keep (λ t. not (timer_hit l.stopping t)) l.timers);
    ios = map (cancel_io l.stopping) l.ios;
    waits = keep (λ w. not (wait_hit l.stopping w)) l.waits;
    ready =
        (l.ready ++ map (λ t. canceled_work t.id) (keep (timer_hit l.stopping) l.timers))
        ++ map (λ w. canceled_work w.id) (keep (wait_hit l.stopping) l.waits);
  }

  -- `while (!timers_.empty() && timers_.front()->due <= now)`, a timer less in each round.
  unfoldable pub pop_due : ℕ → ℕ → List Timer → List Work → List Timer × List Work
  pop_due zero now ts ready = (ts, ready)
  pop_due (suc fuel) now [] ready = ([], ready)
  pop_due (suc fuel) now (t ∷ ts) ready =
      let rest = pop_due fuel now (drop_last (heap.pop_heap (t ∷ ts))) (finish t.id none ready) in
      if leb t.due now then rest else (t ∷ ts, ready)

  unfoldable pub expire : Loop → ℕ → Loop
  expire l now =
      let swept = if l.cancel then cancel_pass l else l in
      let (ts, ready) = pop_due (length swept.timers) now swept.timers swept.ready in
      record swept { timers = ts; ready = ready }
