-- ===== src/Loop/Cancel.antt =====
-- What `loop::expire` of src/loop.cpp leaves and what it queues, and what it does after `loop::stop`.
use mathlib.Core.List.{Perm}
use mathlib.Core.List.Perm
use snowy.Prelude.{
  ℕ, ◌≤◌, ◌<◌, ◌≡◌, refl, sym, ap, ap₂, ◌∙◌, subst, Bool, true, false, not, ◌&&◌, ◌||◌, Option,
  none, some, List, [], ◌∷◌, ◌++◌, map, keep, append-nil, append_assoc, length, All, All-keep,
  if◌then◌else◌, arith, length-perm,
}
use snowy.Errc.{operation_canceled}
use snowy.Loop.{Loop, Timer, Wait, Io, Work, arm, stop}
use snowy.Loop.Heap.{StdHeap}
use snowy.Loop.Expire.{can_interrupt, wait_hit, cancel_io, cancel_pass, expire}
use snowy.Loop.Due.{ended, InOrder, Expired, pop_due_expires}

-- An operation is asked to end if all are, or if its own token asked.
abbrev pub is_asked : Bool → Bool → Bool
is_asked all own = all || own

abbrev pub ends_timer : Bool → Timer → Bool
ends_timer all t = is_asked all t.canceled

-- A wait without a hook, and one that is still linked where another thread can take it.
abbrev pub is_within_reach : Option Bool → Bool
is_within_reach none = true
is_within_reach (some linked) = linked

-- A wait is ended if it is interruptible, asked to end and within reach.
abbrev pub ends_wait : Bool → Wait → Bool
ends_wait all w = w.interruptible && is_asked all w.canceled && is_within_reach w.hook

-- A request is marked once: the flags that it has stay.
abbrev pub marked : Bool → Io → Io
marked all op = record op {
  canceling = op.canceling || (not op.cancel_sent && is_asked all op.canceled);
  cancel_sent = op.cancel_sent || is_asked all op.canceled;
}

-- What an operation that is ended so leaves to its coroutine.
abbrev pub ended_early : ℕ → Work
ended_early id = record { id = id; error = some operation_canceled }

-- What a cancellation pass ends, and what it keeps; without a request, nothing is ended.
abbrev pub canceled : Bool → Loop → List Work
canceled b l =
    if b
    then map (λ (t : Timer). ended_early t.id) (keep (ends_timer l.stopping) l.timers)
      ++ map (λ (w : Wait). ended_early w.id) (keep (ends_wait l.stopping) l.waits)
    else []

abbrev pub kept_timers : Bool → Loop → List Timer
kept_timers b l = if b then keep (λ t. not (ends_timer l.stopping t)) l.timers else l.timers

abbrev pub kept_waits : Bool → Loop → List Wait
kept_waits b l = if b then keep (λ w. not (ends_wait l.stopping w)) l.waits else l.waits

abbrev pub kept_ios : Bool → Loop → List Io
kept_ios b l = if b then map (marked l.stopping) l.ios else l.ios

-- Everything that `expire` does.
abbrev pub Settled : StdHeap → Loop → ℕ → Loop → Type 0
Settled heap l now l' =
    (done : List Timer) × (l'.ready ≡ (l.ready ++ canceled l.cancel l) ++ map ended done)
    × Perm (done ++ l'.timers) (kept_timers l.cancel l)
    × All (λ (t : Timer). t.due ≤ now) done
    × All (λ (t : Timer). now < t.due) l'.timers
    × InOrder done
    × heap.IsHeap l'.timers
    × (l'.waits ≡ kept_waits l.cancel l)
    × (l'.ios ≡ kept_ios l.cancel l)
    × (l'.cancel ≡ false)
    × (l'.stopping ≡ l.stopping)

reached : (h : Option Bool) → can_interrupt h ≡ is_within_reach h
reached none = refl
reached (some linked) = refl

hit_ends : (all : Bool) (w : Wait) → wait_hit all w ≡ ends_wait all w
hit_ends all w = ap (λ b. w.interruptible && is_asked all w.canceled && b) (reached w.hook)

ended_waits :
    (all : Bool) (ws : List Wait)
    → (keep (wait_hit all) ws ≡ keep (ends_wait all) ws)
      × (keep (λ w. not (wait_hit all w)) ws ≡ keep (λ w. not (ends_wait all w)) ws)
ended_waits all [] = (refl, refl)
ended_waits all (w ∷ ws) =
    let (ended_too, kept_too) = ended_waits all ws in
    (
      ap₂ (λ (b : Bool) xs. if b then w ∷ xs else xs) (hit_ends all w) ended_too,
      ap₂ (λ (b : Bool) xs. if not b then w ∷ xs else xs) (hit_ends all w) kept_too,
    )

or_nothing : (b : Bool) → b || false ≡ b
or_nothing b = ground arith

or_something : (b : Bool) → b || true ≡ true
or_something b = ground arith

flags_marked :
    (all sent own : Bool) (op : Io)
    → (if not sent && (all || own)
        then record op { canceling = true; cancel_sent = true }
        else record op { cancel_sent = sent })
      ≡ record op {
        canceling = op.canceling || (not sent && is_asked all own);
        cancel_sent = sent || is_asked all own;
      }
flags_marked all true own op =
    ap (λ b. record op { canceling = b; cancel_sent = true }) (sym (or_nothing op.canceling))
flags_marked true false own op =
    ap (λ b. record op { canceling = b; cancel_sent = true }) (sym (or_something op.canceling))
flags_marked false false true op =
    ap (λ b. record op { canceling = b; cancel_sent = true }) (sym (or_something op.canceling))
flags_marked false false false op =
    ap (λ b. record op { canceling = b; cancel_sent = false }) (sym (or_nothing op.canceling))

marked_ios : (all : Bool) (ios : List Io) → map (cancel_io all) ios ≡ map (marked all) ios
marked_ios all [] = refl
marked_ios all (op ∷ ios) =
    ap₂ (λ x xs. x ∷ xs) (flags_marked all op.cancel_sent op.canceled op) (marked_ios all ios)

module _ (heap : StdHeap) where
  -- What the cancellation pass hands to the pass over the due timers.
  Swept : Bool → Loop → Loop → Type 0
  Swept b l s =
      (s.ready ≡ l.ready ++ canceled b l)
      × Perm s.timers (kept_timers b l)
      × heap.IsHeap s.timers
      × (s.waits ≡ kept_waits b l)
      × (s.ios ≡ kept_ios b l)
      × (s.cancel ≡ false)
      × (s.stopping ≡ l.stopping)

  swept :
      (l : Loop) (b : Bool)
      → l.cancel ≡ b
      → heap.IsHeap l.timers
      → Swept b l (if b then cancel_pass heap l else l)
  unfolding Swept cancel_pass
  swept l true e h =
      let (ended_now, kept_now) = ended_waits l.stopping l.waits in
      (
        append_assoc l.ready _ _
            ∙ ap
                (λ ws.
                  l.ready
                  ++ (map (λ (t : Timer). ended_early t.id) (keep (ends_timer l.stopping) l.timers)
                      ++ map (λ (w : Wait). ended_early w.id) ws))
                ended_now,
        heap.make_perm _,
        heap.make_IsHeap _,
        kept_now,
        marked_ios l.stopping l.ios,
        refl,
        refl,
      )
  swept l false e h = (sym (append-nil l.ready), Perm.refl l.timers, h, refl, refl, e, refl)

  settled :
      (l s : Loop) (now : ℕ)
      → Swept l.cancel l s
      → (r : List Timer × List Work) → Expired heap now s.timers s.ready r
      → Settled heap l now (record s { timers = r.0; ready = r.1 })
  unfolding Swept
  settled l s now (er, p, h, ew, ei, ec, es) r (done, e, q, d, f, o, k) =
      (done, e ∙ ap (λ ws. ws ++ map ended done) er, Perm.trans q p, d, f, o, k, ew, ei, ec, es)

  pub expire_settles :
      (l : Loop) (now : ℕ) → heap.IsHeap l.timers → Settled heap l now (expire heap l now)
  unfolding expire Swept
  expire_settles l now h =
      let s = if l.cancel then cancel_pass heap l else l in
      let k = swept l l.cancel refl h in
      settled l s now k _
        (pop_due_expires heap (length s.timers) now s.timers s.ready k.2 (omega arith))

module _ where
  none_kept : (ts : List Timer) → keep (λ t. not (ends_timer true t)) ts ≡ []
  none_kept [] = refl
  none_kept (t ∷ ts) = none_kept ts

  all_hit : (ts : List Timer) → keep (ends_timer true) ts ≡ ts
  all_hit [] = refl
  all_hit (t ∷ ts) = ap (λ us. t ∷ us) (all_hit ts)

  All-sent : (ios : List Io) → All (λ (op : Io). op.cancel_sent ≡ true) (map (marked true) ios)
  All-sent [] = tt
  All-sent (op ∷ ios) = (ground arith, All-sent ios)

  both_nil : (xs ys : List Timer) → length (xs ++ ys) ≡ 0 → (xs ≡ []) × (ys ≡ [])
  both_nil [] [] e = (refl, refl)
  both_nil [] (y ∷ ys) e = absurd (omega arith)
  both_nil (x ∷ xs) ys e = absurd (omega arith)

-- A wait that no cancellation ends.
abbrev pub Endures : Wait → Type 0
Endures w = w.interruptible && is_within_reach w.hook ≡ false

endures : (w : Wait) → not (ends_wait true w) ≡ true → Endures w
endures w h = ground arith

-- What `expire` does on a loop that was stopped.
abbrev pub StoppedOut : Loop → Loop → Type 0
StoppedOut l l' =
    (l'.timers ≡ [])
    × (l'.ready
        ≡ l.ready
          ++ (map (λ t. ended_early t.id) l.timers
              ++ map (λ w. ended_early w.id) (keep (ends_wait true) l.waits)))
    × All Endures l'.waits
    × All (λ (op : Io). op.cancel_sent ≡ true) l'.ios
    × ((requested : Bool) → arm l' requested ≡ false)

stopped_out :
    (heap : StdHeap) (l l' : Loop) (now : ℕ) → Settled heap (stop l) now l' → StoppedOut l l'
unfolding stop
stopped_out heap l l' now (done, er, p, d, f, o, k, ew, ei, ec, es) =
    let (ed, et) =
      both_nil done l'.timers (omega (arith, length-perm p, ap length (none_kept l.timers))) in
    (
      et,
      er
          ∙ ap (λ ts. (l.ready ++ canceled true (stop l)) ++ map ended ts) ed
          ∙ append-nil _
          ∙ ap
              (λ ts.
                l.ready
                ++ (map (λ t. ended_early t.id) ts
                    ++ map (λ w. ended_early w.id) (keep (ends_wait true) l.waits)))
              (all_hit l.timers),
      subst (All Endures) (sym ew) (All-keep Endures _ l.waits endures),
      subst (All (λ (op : Io). op.cancel_sent ≡ true)) (sym ei) (All-sent l.ios),
      λ requested. ap (λ b. not (b || requested)) es,
    )

-- When the timers form a heap and the loop is stopped, the next expire ends every timer and every
-- interruptible wait that is still linked, with operation_canceled and in the order of the loop's
-- lists, marks every request for I/O as canceled, and the loop arms no operation any more.
pub stop_expires :
    (heap : StdHeap) (l : Loop) (now : ℕ)
    → heap.IsHeap l.timers
    → StoppedOut l (expire heap (stop l) now)
unfolding stop
stop_expires heap l now h =
    stopped_out heap l (expire heap (stop l) now) now (expire_settles heap (stop l) now h)
