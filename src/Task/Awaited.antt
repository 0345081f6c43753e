-- ===== src/Task/Awaited.antt =====
-- What awaiting a task comes to.
use snowy.Prelude.{
  ℕ, zero, suc, ◌≡◌, refl, ap, ◌∙◌, Bool, true, Option, none, some, List, [], ◌∷◌, is_none,
  if◌then◌else◌, arith,
}
use snowy.Task.{
  Promise, Frame, Heap, Outcome, returned, raised, empty, change, handle, alive_at, promise_at,
  taken_by, taken_from, take_result, outcome, await_ready, await_suspend, with_promise,
  set_continuation, return_value, unhandled_exception, final_suspend,
}

-- What the body of a coroutine comes to.
pub data Ending (T : Type 0) : Type 0 where
  value : T → Ending T
  exception : ℕ → Ending T

module _ {T : Type 0} where
  abbrev pub concluded : Ending T → Promise T → Promise T
  concluded (value v) p = return_value v p
  concluded (exception e) p = unhandled_exception e p

  abbrev pub given : Ending T → Outcome T
  given (value v) = returned v
  given (exception e) = raised e

  -- The body of a frame ends.
  abbrev pub finished : Ending T → ℕ → Heap T → Heap T
  finished r k h = record h {
    frames = change (λ f. record f { promise = concluded r f.promise }) k h.frames;
  }

  -- A frame whose body has not ended.
  abbrev pub IsRunning : Option (Promise T) → Type 0
  IsRunning none = ⊥
  IsRunning (some p) = p.exception ≡ none

  concluded-take :
      (r : Ending T) (c : ℕ) (p : Promise T)
      → p.exception ≡ none
      → (take_result (concluded r (set_continuation c p))).0 ≡ some (given r)
  unfolding take_result return_value unhandled_exception set_continuation
  concluded-take (value v) c p h = ground arith
  concluded-take (exception e) c p h = refl

  concluded-final :
      (r : Ending T) (c : ℕ) (p : Promise T)
      → final_suspend (concluded r (set_continuation c p)) ≡ some c
  unfolding final_suspend return_value unhandled_exception set_continuation
  concluded-final (value v) c p = refl
  concluded-final (exception e) c p = refl

  promise_at-change :
      (g : Promise T → Promise T) (fs : List (Frame T)) (k : ℕ) (p : Promise T)
      → promise_at fs k ≡ some p
      → promise_at (change (λ f. record f { promise = g f.promise }) k fs) k ≡ some (g p)
  promise_at-change g [] k p h = cc
  promise_at-change g (f ∷ fs) zero p h =
      ap (λ (x : Option (Promise T)). elim x [ none ↦ none | some q ↦ some (g q) ]) h
  promise_at-change g (f ∷ fs) (suc k) p h = promise_at-change g fs k p h

  -- An await that suspended on the frame of its object.
  pub record Suspends (h : Heap T) (i k c : ℕ) (r : Ending T) : Type 0 where
    pub during : Heap T
    pub suspended : await_suspend i c h ≡ some during
    pub gives : outcome i (finished r k during) ≡ some (given r)
    pub resumes :
        (p : Promise T) × (promise_at (finished r k during).frames k ≡ some p)
        × (final_suspend p ≡ some c)

  waits :
      (h : Heap T) (i k c : ℕ)
      → handle h i ≡ some k
      → alive_at h.frames k ≡ true
      → await_suspend i c h
        ≡ some (record h {
          frames = change (λ f. record f { promise = set_continuation c f.promise }) k h.frames;
        })
  unfolding await_suspend await_ready
  waits h i k c e a =
      ap (λ x. if is_none x then some h else with_promise (set_continuation c) x h) e
      ∙ ap
          (λ (b : Bool).
            if b
            then some (record h {
              frames = change (λ f. record f { promise = set_continuation c f.promise }) k h.frames;
            })
            else none)
          a

  suspends :
      (h : Heap T) (i k c : ℕ) (r : Ending T) (p : Promise T)
      → handle h i ≡ some k
      → alive_at h.frames k ≡ true
      → promise_at h.frames k ≡ some p
      → p.exception ≡ none
      → Suspends h i k c r
  unfolding outcome
  suspends h i k c r p e a q x =
      let fs = change (λ f. record f { promise = set_continuation c f.promise }) k h.frames in
      let done = change (λ f. record f { promise = concluded r f.promise }) k fs in
      let here : promise_at done k ≡ some (concluded r (set_continuation c p)) =
        promise_at-change (concluded r) fs k (set_continuation c p)
          (promise_at-change (set_continuation c) h.frames k p q) in
      record {
        during = record h { frames = fs };
        suspended = waits h i k c e a;
        gives = ap (taken_by done) e ∙ ap taken_from here ∙ concluded-take r c p x;
        resumes = (concluded r (set_continuation c p), here, concluded-final r c p);
      }

  -- What an object without a handle, or with one, makes of an await.
  abbrev pub Awaits : Heap T → ℕ → ℕ → Ending T → Option ℕ → Type 0
  Awaits h i c r none = (await_suspend i c h ≡ some h) × (outcome i h ≡ some empty)
  Awaits h i c r (some k) = Suspends h i k c r

-- Await an object whose frame, if it has one, exists and has not thrown. An empty one does not suspend
-- and throws `logic_error`. Another suspends, and when the body of its frame returns a value or
-- throws, it is the awaiting coroutine that is resumed, and it is given that value, or that
-- exception is thrown in it.
pub await_answers :
    {T : Type 0} (h : Heap T) (i c : ℕ) (r : Ending T) (x : Option ℕ)
    → handle h i ≡ x
    → ((k : ℕ) → x ≡ some k → (alive_at h.frames k ≡ true) × IsRunning (promise_at h.frames k))
    → Awaits h i c r x
unfolding await_suspend await_ready outcome
await_answers {T} h i c r none e v = (
  ap (λ x. if is_none x then some h else with_promise (set_continuation c) x h) e,
  ap (taken_by h.frames) e,
)
await_answers {T} h i c r (some k) e v = running (promise_at h.frames k) refl (v k refl).1
  where
    running :
        (q : Option (Promise T)) → promise_at h.frames k ≡ q → IsRunning q → Suspends h i k c r
    running none p run = absurd run
    running (some q) p run = suspends h i k c r q e (v k refl).0 p run
