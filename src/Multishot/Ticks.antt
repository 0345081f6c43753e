-- ===== src/Multishot/Ticks.antt =====
-- How often `ticks` of include/snowy/uring_multi.hpp calls its consumer.
use snowy.Prelude.{
  ℕ, suc, ◌+◌, ◌-◌, ◌%◌, ◌^◌, ◌<◌, ◌≤◌, ◌≡◌, ◌≢◌, refl, sym, ap, ap₂, ◌∙◌, subst, Bool, true, false,
  not, ◌&&◌, ◌||◌, Option, none, some, List, [], ◌∷◌, ltb, ltb→lt, ◌==◌, if◌then◌else◌, if_cases,
  arith, All,
}
use snowy.Fault.{Fault, invalid_argument, system_error, ok, ◌>>◌, throw_if, count, failed}
use snowy.Multishot.{
  Reply, proceed, halt, raise, Cqe, cqe, Stream, Next, returned, again, threw, Shot, early,
  completions, fresh, replied, onward, settle, deliver, shoot, canceled, timer_expired,
}
use snowy.Multishot.Periodic.{Ticking, ticked, tick, is_complete, request_count, tick_rounds, ticks}
use snowy.Multishot.Due.{
  iterate, expirations, last_error, reported, goes_on, Allowed, due, EndsAt, Ended,
}

module _ {U : Type 0} (fn : U → U × Reply) (u : U) (willing : (v : U) → (fn v).1 ≡ proceed) where
  -- A request that no call has stopped, after some calls.
  record IsGoing (r : Stream (Ticking U)) (calls : ℕ) : Type 0 where
    open_still : r.stopped ≡ false
    fine : r.failure ≡ none
    called : r.context.received ≡ calls % 2 ^ 32
    stepped : r.context.user ≡ iterate fn calls u

  ticked-IsGoing :
      (r : Stream (Ticking U)) (calls e : ℕ)
      → IsGoing r calls
      → IsGoing (replied (ticked fn r.context) (record r { error = e })) (suc calls)
  ticked-IsGoing r calls e g =
      subst
        (λ (a : Reply).
          IsGoing
            (replied
              (
                record {
                  user = (fn r.context.user).0;
                  received = (r.context.received + 1) % 2 ^ 32;
                },
                a,
              )
              (record r { error = e }))
            (suc calls))
        (sym (willing r.context.user))
        (record {
          open_still = g.open_still;
          fine = g.fine;
          called = omega (arith, g.called);
          stepped = ap (λ v. (fn v).0) g.stepped;
        })

  failed-IsGoing :
      (r : Stream (Ticking U)) (calls e : ℕ) (expired stopped : Bool)
      → stopped ≡ false
      → IsGoing r calls
      → IsGoing
          (replied
            (if expired && not stopped then ticked fn r.context else (r.context, proceed))
            (record r { error = e }))
          (calls + (if expired then 1 else 0))
  failed-IsGoing r calls e true true h g = cc
  failed-IsGoing r calls e true false h g =
      subst (IsGoing (replied (ticked fn r.context) (record r { error = e }))) (omega arith)
        (ticked-IsGoing r calls e g)
  failed-IsGoing r calls e false stopped h g =
      subst (IsGoing (record r { error = e })) (omega arith) (record {
        open_still = g.open_still;
        fine = g.fine;
        called = g.called;
        stepped = g.stepped;
      })

  deliver-IsGoing :
      (cs : List Cqe) (r : Stream (Ticking U)) (calls : ℕ)
      → IsGoing r calls
      → IsGoing (deliver (tick fn) cs r) (calls + expirations cs)
  unfolding deliver
  deliver-IsGoing [] r calls g = subst (IsGoing r) (omega arith) g
  deliver-IsGoing (cqe (count n) k ∷ cs) r calls g =
      deliver-IsGoing cs (record r { bytes = n }) calls
        (record {
          open_still = g.open_still;
          fine = g.fine;
          called = g.called;
          stepped = g.stepped;
        })
  deliver-IsGoing (cqe (failed e) k ∷ cs) r calls g =
      let more : ℕ = if e == timer_expired then 1 else 0 in
      subst
        (IsGoing (
          deliver (tick fn) cs
            (replied (tick fn r.context r.stopped (failed e) k) (record r { error = e }))))
        (regroup calls more (expirations cs))
        (deliver-IsGoing cs
          (replied (tick fn r.context r.stopped (failed e) k) (record r { error = e }))
          (calls + more) (failed-IsGoing r calls e (e == timer_expired) r.stopped g.open_still g))
    where
      regroup : (a b c : ℕ) → a + b + c ≡ a + (b + c)
      regroup a b c = omega arith

  replied-error : (x : Ticking U × Reply) (r : Stream (Ticking U)) → (replied x r).error ≡ r.error
  replied-error (s, proceed) r = refl
  replied-error (s, halt) r = refl
  replied-error (s, raise f) r = refl

  deliver-error :
      (cs : List Cqe) (r : Stream (Ticking U))
      → (deliver (tick fn) cs r).error ≡ last_error cs r.error
  unfolding deliver
  deliver-error [] r = refl
  deliver-error (cqe (count n) k ∷ cs) r = deliver-error cs (record r { bytes = n })
  deliver-error (cqe (failed e) k ∷ cs) r =
      let answer = tick fn r.context r.stopped (failed e) k in
      deliver-error cs (replied answer (record r { error = e }))
      ∙ ap (last_error cs) (replied-error answer (record r { error = e }))

  module _ (limit : ℕ) (limited : 0 < limit) (wide : limit < 2 ^ 32) where
    abbrev ending : Stream (Ticking U) → Next
    ending = settle (λ e. e == timer_expired) (is_complete fn limit)

    -- What is known of the way that a round ended, after some calls and with the error of its request.
    abbrev EndsRound : ℕ → ℕ → Next → Type 0
    EndsRound calls x again = (x == 0 || x == timer_expired ≡ true) × (ltb calls limit ≡ true)
    EndsRound calls x returned = calls ≡ limit
    EndsRound calls x (threw f) =
        (x == 0 || x == timer_expired ≡ false)
        × ((e : ℕ) × (f ≡ system_error e) × (e ≢ timer_expired))

    completed :
        (calls x : ℕ)
        → calls ≤ limit
        → x == 0 || x == timer_expired ≡ true
        → EndsRound calls x (if not (limit == 0 || ltb calls limit) then returned else again)
    completed calls x h g =
        if_cases (EndsRound calls x) (not (limit == 0 || ltb calls limit)) returned again
          (λ e. ground arith) (λ e. (g, ground arith))

    differs : (e k : ℕ) → e == k ≡ false → e ≢ k
    differs e k h p = ground arith

    settle_open :
        (s : Ticking U) (stopped : Bool) (failure : Option Fault) (c : Bool) (e n : ℕ)
        → stopped ≡ false
        → failure ≡ none
        → s.received ≤ limit
        → EndsRound s.received e (
            ending (record {
              context = s;
              stopped = stopped;
              failure = failure;
              canceling = c;
              error = e;
              bytes = n;
            }))
    unfolding settle
    settle_open s true failure c e n p q h = cc
    settle_open s false (some f) c e n p q h = cc
    settle_open s false none c e n p q h =
        if_cases (EndsRound s.received e) (e == 0) _ _
          (λ z. completed s.received e h (ap (λ b. b || e == timer_expired) z))
          (λ z.
            if_cases (EndsRound s.received e) (e == timer_expired) _ (threw (system_error e))
              (λ t. completed s.received e h (ground arith))
              (λ d. (ground arith, (e, refl, differs e timer_expired d))))

    asked : (calls : ℕ) → calls < limit → request_count fn limit calls ≡ limit - calls
    asked calls h =
        if_cases (λ n. n ≡ limit - calls) (limit == 0) 0 ((limit + 2 ^ 32 - calls) % 2 ^ 32)
          (λ e. ground arith) (λ e. omega (arith, h, wide))

    -- The calls that are due once a request has brought the calls to a number.
    abbrev due_behind : Bool → List (ℕ → Shot) → ℕ → ℕ
    due_behind goes kernels calls =
        if goes && ltb calls limit then due limit kernels calls else calls

    stays :
        (goes : Bool) (kernels : List (ℕ → Shot)) (calls : ℕ)
        → calls ≡ limit
        → due_behind goes kernels calls ≡ calls
    stays goes kernels calls e =
        if_cases (λ n. n ≡ calls) (goes && ltb calls limit) (due limit kernels calls) calls
          (λ q. absurd (ground (arith, e, q))) (λ _. refl)

    next_round :
        (kernels : List (ℕ → Shot)) (s : Ticking U) (x : ℕ) (next : Next)
        → s.user ≡ iterate fn s.received u
        → s.received ≤ limit
        → EndsRound s.received x next
        → (s.received < limit
            → EndsAt fn u limit (due limit kernels s.received) (tick_rounds fn limit kernels s))
        → EndsAt fn u limit
            (due_behind (x == 0 || x == timer_expired) kernels s.received)
            (onward (λ t. tick_rounds fn limit kernels t) s next)
    next_round kernels s x again p h e m =
        subst (λ n. EndsAt fn u limit n (tick_rounds fn limit kernels s))
          (sym (
            ap₂ (λ (a b : Bool). if a && b then due limit kernels s.received else s.received) e.0
              e.1))
          (m (ltb→lt s.received limit e.1))
    next_round kernels s x returned p h e m =
        let all_due = stays (x == 0 || x == timer_expired) kernels s.received e in
        (sym all_due, h, p ∙ ap (λ n. iterate fn n u) (sym all_due), all_due ∙ e)
    next_round kernels s x (threw f) p h e m =
        let all_due =
          ap
            (λ (a : Bool).
              if a && ltb s.received limit then due limit kernels s.received else s.received)
            e.0 in
        (sym all_due, h, p ∙ ap (λ n. iterate fn n u) (sym all_due), e.1)

    one_round :
        (kernels : List (ℕ → Shot)) (s : Ticking U) (shot : Shot)
        → s.user ≡ iterate fn s.received u
        → s.received < limit
        → reported shot ≤ limit - s.received
        → ((t : Ticking U)
            → t.user ≡ iterate fn t.received u
            → t.received < limit
            → EndsAt fn u limit (due limit kernels t.received) (tick_rounds fn limit kernels t))
        → EndsAt fn u limit (due_behind (goes_on shot) kernels (s.received + reported shot)) (
            onward
              (λ t. tick_rounds fn limit kernels t)
              (shoot (tick fn) shot s).context
              (ending (shoot (tick fn) shot s)))
    unfolding shoot
    one_round kernels s early p l a ih =
        let below : s.received ≤ limit = omega (arith, l) in
        subst
          (λ n. EndsAt fn u limit n (
            onward (λ t. tick_rounds fn limit kernels t) s
              (ending (record (fresh s) { error = canceled }))))
          (omega arith)
          (next_round kernels s canceled (ending (record (fresh s) { error = canceled })) p below
            (settle_open s false none false canceled 0 refl refl below) (ih s p))
    one_round kernels s (completions cs) p l a ih =
        let r = deliver (tick fn) cs (fresh s) in
        let g = deliver-IsGoing cs (fresh s) s.received (record {
          open_still = refl;
          fine = refl;
          called = omega (arith, l, wide);
          stepped = p;
        }) in
        let exact : r.context.received ≡ s.received + expirations cs =
          omega (arith, g.called, a, l, wide) in
        let p' : r.context.user ≡ iterate fn r.context.received u =
          g.stepped ∙ ap (λ n. iterate fn n u) (sym exact) in
        let h' : r.context.received ≤ limit = omega (arith, exact, a, l) in
        subst
          (λ n.
            EndsAt fn u limit n (onward (λ t. tick_rounds fn limit kernels t) r.context (ending r)))
          (ap₂ (λ x n. due_behind (x == 0 || x == timer_expired) kernels n)
            (deliver-error cs (fresh s)) exact)
          (next_round kernels r.context r.error (ending r) p' h'
            (settle_open r.context r.stopped r.failure r.canceling r.error r.bytes g.open_still
              g.fine h')
            (ih r.context p'))

    rounds-EndsAt :
        (kernels : List (ℕ → Shot)) (s : Ticking U)
        → s.user ≡ iterate fn s.received u
        → s.received < limit
        → All Allowed kernels
        → EndsAt fn u limit (due limit kernels s.received) (tick_rounds fn limit kernels s)
    unfolding tick_rounds
    rounds-EndsAt [] s p h a = (refl, omega arith, p, tt)
    rounds-EndsAt (kernel ∷ kernels) s p h a =
        let left = limit - s.received in
        subst
          (λ c.
            EndsAt fn u limit
              (due_behind (goes_on (kernel left)) kernels (s.received + reported (kernel left)))
              (onward (λ t. tick_rounds fn limit kernels t) (shoot (tick fn) (kernel c) s).context
                (ending (shoot (tick fn) (kernel c) s))))
          (sym (asked s.received h))
          (one_round kernels s (kernel left) p h (a.0 left (omega (arith, h)))
            (λ t q below. rounds-EndsAt kernels t q below a.1))

-- With a positive interval, a positive limit of 32 bits, a consumer that always answers true, and a kernel that
-- reports no more expirations than each request asks for, `ticks` calls its consumer once for each
-- expiration that its requests report, and so at most `limit` times, and exactly `limit` times if it
-- returns. A request asks for what is left of the limit; no other follows one that fails, and `ticks`
-- throws only an error of the request that is not the expiry of its timer.
pub ticks-Ended :
    {U : Type 0} (fn : U → U × Reply) (u : U) (interval limit : ℕ) (kernels : List (ℕ → Shot))
    → ((v : U) → (fn v).1 ≡ proceed)
    → 0 < interval
    → 0 < limit
    → limit < 2 ^ 32
    → All Allowed kernels
    → Ended fn u limit (due limit kernels 0) (ticks fn interval limit kernels u)
unfolding ticks
ticks-Ended fn u interval limit kernels willing i l wide a =
    subst
      (λ b. Ended fn u limit (due limit kernels 0) (
        throw_if b invalid_argument
        >> ok (tick_rounds fn limit kernels (record { user = u; received = 0 }))))
      (sym (positive interval i))
      (rounds-EndsAt fn u willing limit l wide kernels (record { user = u; received = 0 }) refl l a)
  where
    positive : (n : ℕ) → 0 < n → n == 0 ≡ false
    positive n h = ground arith
