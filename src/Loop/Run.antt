-- ===== src/Loop/Run.antt =====
-- `loop::run` of src/loop.cpp. The functions that were posted, the messages, the coroutines that
-- are resumed, the native poll and the exceptions of cancellations are parameters: each takes the loop and
-- gives it back changed, with what it throws.
use snowy.Prelude.{
  ℕ, zero, suc, ◌-◌, Bool, true, false, not, ◌&&◌, ◌||◌, Option, none, some, List, [], ◌∷◌, drop,
  take, is_empty, ◌++◌, map, keep, ◌==◌, if◌then◌else◌,
}
use snowy.Loop.{Loop, Timer, Io, Work, fail}
use snowy.Loop.Heap.{StdHeap}
use snowy.Loop.Expire.{canceled_work, timer_hit, cancel_io, expire}

-- What a round ends with. The delay of a poll is none where it may wait without a limit.
pub data Next : Type 0 where
  leave : Next
  again : Next
  poll : Option ℕ → Next

pub data Outcome : Type 0 where
  nested : Outcome
  returned : Loop → Outcome
  raised : ℕ → Loop → Outcome
  -- A poll or a cancellation threw: `catch (...)` leaves the loop its work and its error.
  threw : ℕ → Loop → Outcome
  -- The rounds that were asked for did not end it.
  going : Loop → Outcome

-- `batch.swap(posts_)` and the messages up to the budget.
unfoldable pub detach : Loop → Loop
detach l = record l { posts = []; messages = drop l.budget l.messages }

-- `posted`.
abbrev pub is_posted : Loop → Bool
is_posted l = not (is_empty l.posts) || not (is_empty l.messages)

abbrev pub timer_delay : List Timer → ℕ → Option ℕ
timer_delay [] now = none
timer_delay (t ∷ ts) now = some (t.due - now)

-- Whether a poll with this delay waits.
abbrev pub may_wait : Option ℕ → Bool
may_wait none = true
may_wait (some d) = not (d == 0)

-- Nothing is left for the loop to wait for.
abbrev pub is_drained : Loop → Bool
is_drained l =
    l.roots == 0
    && is_empty l.ios
    && is_empty l.waits
    && is_empty l.timers
    && is_empty l.ready
    && not (is_posted l)
    && (l.holds == 0 || l.stopping)

unfoldable pub next : Loop → ℕ → Next
next l now =
    let has_work = not (is_empty l.ready) || is_posted l in
    if is_drained l
    then leave
    else if is_empty l.ios && has_work
    then again
    else if has_work
    then poll (some 0)
    else poll (timer_delay l.timers now)

module _ (resume : Work → Loop → Loop) where
  -- `for (unsigned i = 0; i < budget_; ++i)` over `ready_`.
  unfoldable pub run_ready : ℕ → Loop → Loop
  run_ready zero l = l
  run_ready (suc n) l = elim l.ready [
    | [] ↦ l
    | w ∷ ws ↦ run_ready n (resume w (record l { ready = ws }))
  ]

-- `expire` when a cancellation throws: `throws` has the exception of `cancel` for each request. The
-- requests before it have been canceled, and so have the timers, but not the waits.
module _ (heap : StdHeap) (throws : Io → Option ℕ) where
  abbrev pub cancel_until : Bool → List Io → List Io × Option ℕ
  cancel_until all [] = ([], none)
  cancel_until all (op ∷ ios) =
      let (rest, error) = cancel_until all ios in
      if not op.cancel_sent && (all || op.canceled)
      then elim (throws op) [
        | some e ↦ (op ∷ ios, some e)
        | none ↦ (cancel_io all op ∷ rest, error)
      ]
      else (op ∷ rest, error)

  abbrev pub cut_pass : List Io → Loop → Loop
  cut_pass ios l = record l {
    cancel = false;
    timers = heap.make_heap (keep (λ t. not (timer_hit l.stopping t)) l.timers);
    ios = ios;
    ready = l.ready ++ map (λ t. canceled_work t.id) (keep (timer_hit l.stopping) l.timers);
  }

  abbrev pub expired : Loop → ℕ → List Io × Option ℕ → Loop × Option ℕ
  expired l now (ios, none) = (expire heap l now, none)
  expired l now (ios, some e) = (cut_pass ios l, some e)

  unfoldable pub try_expire : Loop → ℕ → Loop × Option ℕ
  try_expire l now =
      expired l now (if l.cancel then cancel_until l.stopping l.ios else (l.ios, none))

module _ (heap : StdHeap) (call : ℕ → Loop → Loop × Option ℕ) (handle : ℕ → Loop → Loop)
    (resume : Work → Loop → Loop) (throws : Io → Option ℕ)
    (wait : Option ℕ → Loop → Loop × Option ℕ) where
  abbrev pub called : Loop × Option ℕ → Loop
  called (l, none) = l
  called (l, some e) = fail l e

  -- A function that throws fails the loop, and the others run all the same.
  abbrev pub run_posts : List ℕ → Loop → Loop
  run_posts [] l = l
  run_posts (fn ∷ fns) l = run_posts fns (called (call fn l))

  abbrev pub run_messages : List ℕ → Loop → Loop
  run_messages [] l = l
  run_messages (m ∷ ms) l = run_messages ms (handle m l)

  abbrev pub resumed : ℕ → Loop × Option ℕ → Loop × Option ℕ
  resumed budget (l, none) = (run_ready resume budget l, none)
  resumed budget (l, some e) = (l, some e)

  -- A round up to the check for what is left.
  unfoldable pub round : Loop → ℕ → Loop × Option ℕ
  round l now =
      let l' = run_messages (take l.budget l.messages) (run_posts l.posts (detach l)) in
      resumed l.budget (try_expire heap throws l' now)

  -- `catch (...)`, and the rethrow of what the loop's own coroutines threw.
  abbrev pub caught : ℕ → Loop → Outcome
  caught e l = threw e (record l { running = false })

  abbrev pub left : Option ℕ → Loop → Outcome
  left none l = returned (record l { running = false })
  left (some e) l = raised e (record l { running = false; error = none })

  abbrev pub polled : (Loop → Outcome) → Loop × Option ℕ → Outcome
  polled more (l, none) = more l
  polled more (l, some e) = caught e l

  abbrev pub proceed : (Loop → Outcome) → Next → Loop → Outcome
  proceed more leave l = left l.error l
  proceed more again l = more l
  proceed more (poll d) l = polled more (wait d l)

  abbrev pub after_round : (Loop → Outcome) → ℕ → Loop × Option ℕ → Outcome
  after_round more later (l, none) = proceed more (next l later) l
  after_round more later (l, some e) = caught e l

  -- One round for each pair of clock readings, that of `expire` and that of the poll.
  unfoldable pub rounds : List (ℕ × ℕ) → Loop → Outcome
  rounds [] l = going l
  rounds ((now, later) ∷ times) l = after_round (λ k. rounds times k) later (round l now)

  unfoldable pub run : List (ℕ × ℕ) → Loop → Outcome
  run times l = if l.running then nested else rounds times (record l { running = true })
