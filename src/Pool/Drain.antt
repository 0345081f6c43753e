-- ===== src/Pool/Drain.antt =====
-- The pool of pool.cpp takes every job, in order, and no worker sleeps through one.
use snowy.Prelude.{
  ℕ, zero, suc, ◌+◌, ◌-◌, ◌≤◌, ◌<◌, ◌≡◌, refl, sym, ap, ◌∙◌, Bool, true, false, List, [], ◌∷◌, ◌++◌,
  ◌==◌, if_cases, length, length-append, append_assoc, append-nil, arith, ◌⊎◌, inl, inr,
}
use snowy.Pool.{fresh, enqueue, close, notify_one, notify_all, look, finish}
use snowy.Pool.Steps.{
  Event, queued, notified, closed, announced, looked, stirred, finished, Run, queue, took, step,
  run, start,
}

-- `threads` workers exist. The jobs that were accepted are those taken and those that wait. While a
-- worker sleeps, there is an awake worker or a notification to come for each job, and a notification
-- to all if the pool is stopping. A worker has returned only from a stopping pool without a job.
pub record IsSound (threads : ℕ) (r : Run) : Type 0 where
  pub crew : r.pool.polling + r.pool.asleep + r.pool.busy + r.pool.gone ≡ threads
  pub fifo : r.accepted ≡ r.taken ++ r.pool.jobs
  pub heard : 0 < r.pool.asleep → length r.pool.jobs ≤ r.pool.polling + r.owed
  pub called : 0 < r.pool.asleep → r.pool.stopping ≡ true → r.owes_all ≡ true
  pub drained : 0 < r.pool.gone → (r.pool.stopping ≡ true) × (r.pool.jobs ≡ [])

notify_one-IsSound :
    (n : ℕ) (r : Run) (k : ℕ)
    → IsSound n (record r { pool = record r.pool { asleep = k } })
    → IsSound n (record r { pool = notify_one (record r.pool { asleep = k }) })
unfolding notify_one
notify_one-IsSound n r zero s = s
notify_one-IsSound n r (suc k) s = record {
  crew = omega (arith, s.crew);
  fifo = s.fifo;
  heard = λ h. omega (arith, s.heard (omega arith));
  called = λ h. s.called (omega arith);
  drained = s.drained;
}

notified-IsSound :
    (n : ℕ) (r : Run) (k owed : ℕ)
    → r.owed ≡ suc owed
    → IsSound n (record r { pool = record r.pool { asleep = k } })
    → IsSound n (record r { pool = notify_one (record r.pool { asleep = k }); owed = r.owed - 1 })
unfolding notify_one
notified-IsSound n r zero owed e s = record {
  crew = s.crew;
  fifo = s.fifo;
  heard = λ h. absurd (omega arith);
  called = λ h. absurd (omega arith);
  drained = s.drained;
}
notified-IsSound n r (suc k) owed e s = record {
  crew = omega (arith, s.crew);
  fifo = s.fifo;
  heard = λ h. omega (arith, e, s.heard (omega arith));
  called = λ h. s.called (omega arith);
  drained = s.drained;
}

looked-IsSound :
    (n : ℕ) (r : Run) (jobs : List ℕ) (stopping : Bool)
    → 0 < r.pool.polling
    → IsSound n (record r { pool = record r.pool { jobs = jobs; stopping = stopping } })
    → IsSound n (took r (look (record r.pool { jobs = jobs; stopping = stopping })))
unfolding look
looked-IsSound n r [] true h s = record {
  crew = omega (arith, s.crew);
  fifo = s.fifo;
  heard = λ k. omega arith;
  called = s.called;
  drained = λ k. (refl, refl);
}
looked-IsSound n r [] false h s = record {
  crew = omega (arith, s.crew);
  fifo = s.fifo;
  heard = λ k. omega arith;
  called = λ k e. absurd (cc);
  drained = s.drained;
}
looked-IsSound n r (job ∷ jobs) stopping h s = record {
  crew = omega (arith, s.crew);
  fifo = s.fifo ∙ sym (append_assoc r.taken (job ∷ []) jobs);
  heard = λ k. omega (arith, s.heard k);
  called = s.called;
  drained = λ k. absurd (cc ((s.drained k).1));
}

queued-IsSound :
    (n : ℕ) (r : Run) (job : ℕ) (stopping : Bool)
    → IsSound n (record r { pool = record r.pool { stopping = stopping } })
    → IsSound n (
        queue
          (record r { pool = record r.pool { stopping = stopping } })
          job
          (enqueue (record r.pool { stopping = stopping }) job))
unfolding enqueue
queued-IsSound n r job true s = s
queued-IsSound n r job false s = record {
  crew = s.crew;
  fifo = ap (λ js. js ++ (job ∷ [])) s.fifo ∙ append_assoc r.taken r.pool.jobs (job ∷ []);
  heard = λ h. omega (arith, s.heard h, length-append r.pool.jobs (job ∷ []));
  called = λ h e. absurd (cc);
  drained = λ h. absurd (cc ((s.drained h).0));
}

closed-IsSound :
    (n : ℕ) (r : Run) → IsSound n r → IsSound n (record r { pool = close r.pool; owes_all = true })
unfolding close
closed-IsSound n r s = record {
  crew = s.crew;
  fifo = s.fifo;
  heard = s.heard;
  called = λ h e. refl;
  drained = λ h. (refl, (s.drained h).1);
}

announced-IsSound :
    (n : ℕ) (r : Run)
    → IsSound n r
    → IsSound n (record r { pool = notify_all r.pool; owes_all = false })
unfolding notify_all
announced-IsSound n r s = record {
  crew = omega (arith, s.crew);
  fifo = s.fifo;
  heard = λ h. absurd (omega arith);
  called = λ h. absurd (omega arith);
  drained = s.drained;
}

finished-IsSound :
    (n : ℕ) (r : Run)
    → 0 < r.pool.busy
    → IsSound n r
    → IsSound n (record r { pool = finish r.pool })
unfolding finish
finished-IsSound n r h s = record {
  crew = omega (arith, s.crew);
  fifo = s.fifo;
  heard = λ k. omega (arith, s.heard k);
  called = s.called;
  drained = s.drained;
}

step-IsSound : (n : ℕ) (r : Run) (e : Event) → IsSound n r → IsSound n (step r e)
unfolding step
step-IsSound n r (queued job) s = queued-IsSound n r job r.pool.stopping s
step-IsSound n r notified s =
    if_cases (IsSound n) (r.owed == 0) r _ (λ _. s)
      (λ e. notified-IsSound n r r.pool.asleep (r.owed - 1) (ground arith) s)
step-IsSound n r closed s = closed-IsSound n r s
step-IsSound n r announced s =
    if_cases (IsSound n) r.owes_all _ r (λ _. announced-IsSound n r s) (λ _. s)
step-IsSound n r looked s =
    if_cases (IsSound n) (r.pool.polling == 0) r _ (λ _. s)
      (λ e. looked-IsSound n r r.pool.jobs r.pool.stopping (ground arith) s)
step-IsSound n r stirred s = notify_one-IsSound n r r.pool.asleep s
step-IsSound n r finished s =
    if_cases (IsSound n) (r.pool.busy == 0) r _ (λ _. s)
      (λ e. finished-IsSound n r (ground arith) s)

run-IsSound : (n : ℕ) (r : Run) (es : List Event) → IsSound n r → IsSound n (run r es)
unfolding run
run-IsSound n r [] s = s
run-IsSound n r (e ∷ es) s = run-IsSound n (step r e) es (step-IsSound n r e s)

start-IsSound : (n : ℕ) → IsSound n (start (fresh n))
start-IsSound n = record {
  crew = omega arith;
  fifo = refl;
  heard = λ h. omega arith;
  called = λ h. absurd (omega arith);
  drained = λ h. absurd (omega arith);
}

-- Jobs are taken in the order of their acceptance, each once. With no notification to come, no
-- worker sleeps or each waiting job has an awake worker, and with a job waiting, some worker is awake.
abbrev pub Serves : Run → Type 0
Serves r =
    (r.accepted ≡ r.taken ++ r.pool.jobs)
    × (r.owed ≡ 0
        → r.owes_all ≡ false
        → ((r.pool.asleep ≡ 0) ⊎ (length r.pool.jobs ≤ r.pool.polling))
          × (0 < length r.pool.jobs → 0 < r.pool.polling + r.pool.busy))

zero_or_more : (n : ℕ) → (n ≡ 0) ⊎ (0 < n)
zero_or_more zero = inl refl
zero_or_more (suc n) = inr (omega arith)

no_one_gone : (n : ℕ) (r : Run) → IsSound n r → 0 < length r.pool.jobs → r.pool.gone ≡ 0
no_one_gone n r s h = elim (zero_or_more r.pool.gone) [
  | inl e ↦ e
  | inr g ↦ absurd (omega (arith, h, ap length (s.drained g).1))
]

serves : (n : ℕ) (r : Run) → 0 < n → IsSound n r → Serves r
serves n r pos s = (
  s.fifo,
  λ owed none_owed. elim (zero_or_more r.pool.asleep) [
    | inl e ↦ (inl e, λ h. omega (arith, e, s.crew, no_one_gone n r s h))
    | inr a ↦ (inr (omega (arith, s.heard a, owed)), λ h. omega (arith, s.heard a, owed))
  ],
)

-- A pool with at least one worker serves its jobs, whatever its callers and its workers do, in any
-- order: they are taken in the order of acceptance, each once, and once the notifications of the
-- earlier calls have come, no worker sleeps or there is an awake one for each job that waits, and
-- some worker is awake or in a job while a job waits.
pub run-Serves : (n : ℕ) (es : List Event) → 0 < n → Serves (run (start (fresh n)) es)
run-Serves n es pos = serves n _ pos (run-IsSound n (start (fresh n)) es (start-IsSound n))

drained_out :
    (n : ℕ) (r : Run)
    → 0 < n
    → IsSound n r
    → r.pool.stopping ≡ true
    → r.owes_all ≡ false
    → r.pool.polling + r.pool.busy ≡ 0
    → (r.pool.gone ≡ n) × (r.pool.jobs ≡ []) × (r.accepted ≡ r.taken)
drained_out n r pos s es ea idle = elim (zero_or_more r.pool.asleep) [
  | inl e ↦
      (let g : r.pool.gone ≡ n = omega (arith, s.crew, e, idle) in
        let j = (s.drained (omega (arith, g, pos))).1 in
        (g, j, s.fifo ∙ ap (λ js. r.taken ++ js) j ∙ append-nil r.taken))
  | inr a ↦ absurd (cc (s.called a es, ea))
]

-- In a pool with at least one worker, after `close` and its notification, once no worker is awake
-- or in a job any more, every worker has returned, so that it can be joined, and every job that
-- was accepted has been taken.
pub close_drains :
    (n : ℕ) (es : List Event)
    → 0 < n
    → (run (start (fresh n)) es).pool.stopping ≡ true
    → (run (start (fresh n)) es).owes_all ≡ false
    → (run (start (fresh n)) es).pool.polling + (run (start (fresh n)) es).pool.busy ≡ 0
    → ((run (start (fresh n)) es).pool.gone ≡ n)
      × ((run (start (fresh n)) es).pool.jobs ≡ [])
      × ((run (start (fresh n)) es).accepted ≡ (run (start (fresh n)) es).taken)
close_drains n es pos es' ea idle =
    drained_out n _ pos (run-IsSound n (start (fresh n)) es (start-IsSound n)) es' ea idle
