-- ===== src/Loop/Exit.antt =====
-- When `loop::run` of src/loop.cpp leaves, and when and for how long it waits.
use snowy.Prelude.{
  ℕ, ◌+◌, ◌-◌, ◌≤◌, ◌≡◌, refl, sym, ap, subst, All-each, ◌∙◌, ◌⊎◌, inl, Bool, true, false, not,
  ◌&&◌, ◌||◌, Option, none, some, List, [], ◌∷◌, All, All-map, is_empty, ◌==◌, ==_eq, if_cases,
  arith,
}
use snowy.Loop.{Loop, Timer, Work}
use snowy.Loop.Heap.{StdHeap}
use snowy.Loop.Run.{Next, leave, again, poll, is_posted, timer_delay, is_drained, next, may_wait}

-- The loop holds nothing that could still make progress.
abbrev pub Drained : Loop → Type 0
Drained l =
    (l.roots ≡ 0)
    × (l.ios ≡ [])
    × (l.waits ≡ [])
    × (l.timers ≡ [])
    × (l.ready ≡ [])
    × (l.posts ≡ [])
    × (l.messages ≡ [])
    × ((l.holds ≡ 0) ⊎ (l.stopping ≡ true))

-- A poll of at most this delay is over when the first timer falls due.
abbrev pub Punctual : Loop → ℕ → Option ℕ → Type 0
Punctual l now none = l.timers ≡ []
Punctual l now (some d) = All (λ (t : Timer). (d ≡ 0) ⊎ (now + d ≤ t.due)) l.timers

-- What each decision says of the loop.
abbrev pub Decided : Loop → ℕ → Next → Type 0
Decided l now leave = Drained l
Decided l now again = (l.ios ≡ []) × ((l.ready ≡ [] → l.posts ≡ [] → l.messages ≡ [] → ⊥))
Decided l now (poll d) =
    Punctual l now d × (may_wait d ≡ true → (l.ready ≡ []) × (l.posts ≡ []) × (l.messages ≡ []))

is_empty_nil {ℓ} : {A : Type ℓ} (xs : List A) → is_empty xs ≡ true → xs ≡ []
is_empty_nil [] e = refl
is_empty_nil (x ∷ xs) e = absurd (cc)

both : (a b : Bool) → a && b ≡ true → (a ≡ true) × (b ≡ true)
both true b e = (refl, e)
both false b e = absurd (cc)

either : (a b : Bool) → not a || not b ≡ false → (a ≡ true) × (b ≡ true)
either a b e = ground arith

quiet : (l : Loop) → is_posted l ≡ false → (l.posts ≡ []) × (l.messages ≡ [])
quiet l e =
    let (p, m) = either (is_empty l.posts) (is_empty l.messages) e in
    (is_empty_nil l.posts p, is_empty_nil l.messages m)

kept_open : (n : ℕ) (b : Bool) → n == 0 || b ≡ true → (n ≡ 0) ⊎ (b ≡ true)
kept_open n b e = ground arith

not-true : (b : Bool) → not b ≡ true → b ≡ false
not-true b e = ground arith

drained : (l : Loop) → is_drained l ≡ true → Drained l
drained l e =
    let (e1, eh) = both _ _ e in
    let (e2, ep) = both _ _ e1 in
    let (e3, ey) = both _ _ e2 in
    let (e4, et) = both _ _ e3 in
    let (e5, ew) = both _ _ e4 in
    let (er, ei) = both _ _ e5 in
    let (p, m) = quiet l (not-true _ ep) in
    (
      ==_eq _ _ er,
      is_empty_nil l.ios ei,
      is_empty_nil l.waits ew,
      is_empty_nil l.timers et,
      is_empty_nil l.ready ey,
      p,
      m,
      kept_open l.holds l.stopping eh,
    )

neither : (a b : Bool) → not a || b ≡ false → (a ≡ true) × (b ≡ false)
neither a b e = ground arith

idle :
    (l : Loop)
    → not (is_empty l.ready) || is_posted l ≡ false
    → (l.ready ≡ []) × (l.posts ≡ []) × (l.messages ≡ [])
idle l e =
    let (r, q) = neither (is_empty l.ready) (is_posted l) e in
    let (p, m) = quiet l q in (is_empty_nil l.ready r, p, m)

busy :
    (l : Loop)
    → not (is_empty l.ready) || is_posted l ≡ true
    → l.ready ≡ []
    → l.posts ≡ []
    → l.messages ≡ []
    → ⊥
busy l e r p m =
    let idle_test = λ (ws : List Work) (fns ms : List ℕ).
      not (is_empty ws) || (not (is_empty fns) || not (is_empty ms)) in
    let e' : idle_test [] [] [] ≡ true =
      sym (
        ap (λ ws. idle_test ws l.posts l.messages) r
        ∙ ap (λ fns. idle_test [] fns l.messages) p
        ∙ ap (idle_test [] []) m)
      ∙ e in
    absurd (cc)

-- A poll that may wait is made without any work.
abbrev pub Idle : Loop → Next → Type 0
Idle l leave = Unit
Idle l again = Unit
Idle l (poll d) = may_wait d ≡ true → (l.ready ≡ []) × (l.posts ≡ []) × (l.messages ≡ [])

pub leave-Drained : (l : Loop) (now : ℕ) → next l now ≡ leave → Drained l
unfolding next
leave-Drained l now =
    let has_work = not (is_empty l.ready) || is_posted l in
    if_cases (λ n. n ≡ leave → Drained l) (is_drained l) _ _ (λ e _. drained l e)
      (λ _.
        if_cases (λ n. n ≡ leave → Drained l) (is_empty l.ios && has_work) _ _ (λ _ h. absurd (cc))
          (λ _.
            if_cases (λ n. n ≡ leave → Drained l) has_work _ _ (λ _ h. absurd (cc))
              (λ _ h. absurd (cc))))

pub next-Idle : (l : Loop) (now : ℕ) → Idle l (next l now)
unfolding next
next-Idle l now =
    let has_work = not (is_empty l.ready) || is_posted l in
    if_cases (Idle l) (is_drained l) _ _ (λ _. tt)
      (λ _.
        if_cases (Idle l) (is_empty l.ios && has_work) _ _ (λ _. tt)
          (λ _. if_cases (Idle l) has_work _ _ (λ _ e. absurd (cc)) (λ e _. idle l e)))

pause : (now due due' : ℕ) → due ≤ due' → (due - now ≡ 0) ⊎ (now + (due - now) ≤ due')
pause now due due' h = ground arith

module _ (heap : StdHeap) where
  punctual :
      (l : Loop) (now : ℕ) (ts : List Timer)
      → l.timers ≡ ts
      → heap.IsHeap ts
      → Punctual l now (timer_delay ts now)
  punctual l now [] e h = e
  punctual l now (t ∷ ts) e h =
      subst (All (λ (u : Timer). (t.due - now ≡ 0) ⊎ (now + (t.due - now) ≤ u.due))) (sym e) (
        pause now t.due t.due (omega arith),
        All-map (λ u. t.due ≤ u.due) (λ u. (t.due - now ≡ 0) ⊎ (now + (t.due - now) ≤ u.due)) ts
            (λ u g. pause now t.due u.due g) (heap.front_first t ts h),
      )

  -- When the timers form a heap, run leaves only with nothing left: no root, request, wait, timer,
  -- ready work, posted function or message, and no hold unless the loop is stopping. It goes to its
  -- next round without a poll only if no I/O is pending and there is work, and a poll that may wait
  -- is made only without any work, with no limit only without a timer, and is over no later than the
  -- deadline of every timer.
  pub next_decides : (l : Loop) (now : ℕ) → heap.IsHeap l.timers → Decided l now (next l now)
  unfolding next
  next_decides l now h =
      let has_work = not (is_empty l.ready) || is_posted l in
      if_cases (Decided l now) (is_drained l) _ _ (drained l) (λ _.
        if_cases (Decided l now) (is_empty l.ios && has_work) _ _
          (λ e. let (ei, ew) = both _ _ e in (is_empty_nil l.ios ei, busy l ew))
          (λ _.
            if_cases (Decided l now) has_work _ _
              (λ _. (
                All-each (λ (t : Timer). (0 ≡ 0) ⊎ (now + 0 ≤ t.due)) (λ t. inl refl) l.timers,
                λ e. absurd (cc),
              ))
              (λ e. (punctual l now l.timers refl h, λ _. idle l e))))
