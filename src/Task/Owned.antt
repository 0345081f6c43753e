-- ===== src/Task/Owned.antt =====
-- Who owns a coroutine frame: the objects of a program that creates, moves, assigns, awaits and
-- destroys tasks.
use snowy.Prelude.{
  ℕ, ◌<◌, ◌≡◌, ◌≢◌, refl, sym, ap, ◌∙◌, subst, true, false, Option, none, some, List, [], ◌∷◌, ltb,
  ltb→lt, ◌==◌, if◌then◌else◌, if_cases, is_none, length, set, length-set, arith, get_or-set_self,
  get_or-set_ne,
}
use snowy.Task.{
  Promise, Frame, Heap, started, alive_at, change, ended, handle, create, create_empty,
  destroy_frame, emptied, destroy, move_from, exchanged, then_exchanged, assign, await_ready,
  with_promise, await_suspend, await_resume, set_continuation, take_result, return_value,
  unhandled_exception,
}
use snowy.Task.Handles.{
  Step, make, make_empty, move, await, drop, resume, move_into, suspend, finish, throw, one, hit,
  holds-append, holds-set, hit-le-holds, one_positive, alive_at-append, alive_at-ended,
  alive_at-change, IsOwned, Safe,
}

module _ {T : Type 0} where
  create-IsOwned : (h : Heap T) → IsOwned h → IsOwned (create h)
  unfolding create
  create-IsOwned h v k = omega (
    arith,
    v k,
    holds-append k h.holders (some (length h.frames) ∷ []),
    alive_at-append h.frames started k refl,
  )

  create_empty-IsOwned : (h : Heap T) → IsOwned h → IsOwned (create_empty h)
  unfolding create_empty
  create_empty-IsOwned h v k = omega (arith, v k, holds-append k h.holders (none ∷ []))

  move_from-IsOwned :
      (h : Heap T) (i : ℕ) → i < length h.holders → IsOwned h → IsOwned (move_from i h)
  unfolding move_from
  move_from-IsOwned h i l v k = omega (
    arith,
    v k,
    holds-append k (set h.holders i none) (handle h i ∷ []),
    holds-set k h.holders i none l,
  )

  -- The frame of an object exists.
  handle_alive :
      (h : Heap T) (i k : ℕ) → handle h i ≡ some k → IsOwned h → alive_at h.frames k ≡ true
  handle_alive h i k e v =
      one_positive (alive_at h.frames k) (omega (arith, v k, hit-le-holds k h.holders i e))

  destroy-Safe : (h : Heap T) (i : ℕ) → i < length h.holders → IsOwned h → Safe (destroy i h)
  unfolding destroy
  destroy-Safe h i l v = freed (handle h i) refl
    where
      freed :
          (x : Option ℕ) → x ≡ handle h i → Safe (emptied i h.holders (destroy_frame x h.frames))
      freed none e = λ k. omega (arith, v k, holds-set k h.holders i none l, ap (hit k) e)
      freed (some j) e =
          subst
            (λ b. Safe (emptied i h.holders (if b then some (change ended j h.frames) else none)))
            (sym (handle_alive h i j (sym e) v))
            (λ k. omega (
              arith,
              v k,
              holds-set k h.holders i none l,
              ap (hit k) e,
              alive_at-ended h.frames j k (handle_alive h i j (sym e) v),
            ))

  exchanged-IsOwned :
      (h : Heap T) (i j : ℕ)
      → i ≢ j
      → i < length h.holders
      → j < length h.holders
      → handle h i ≡ none
      → IsOwned h
      → IsOwned (exchanged i j h)
  exchanged-IsOwned h i j d l m e v k = omega (
    arith,
    v k,
    holds-set k h.holders j none m,
    holds-set k (set h.holders j none) i (handle h j) (omega (arith, length-set h.holders j none)),
    ap (hit k) (get_or-set_ne h.holders j i none none (λ p. d (sym p)) ∙ e),
  )

  exchanged-Safe :
      (hs : List (Option ℕ)) (i j : ℕ) (r : Option (List (Frame T)))
      → i ≢ j
      → i < length hs
      → j < length hs
      → Safe (emptied i hs r)
      → Safe (then_exchanged i j (emptied i hs r))
  exchanged-Safe hs i j none d l m v = v
  exchanged-Safe hs i j (some fs) d l m v =
      exchanged-IsOwned (record { frames = fs; holders = set hs i none }) i j d
        (omega (arith, length-set hs i none)) (omega (arith, length-set hs i none))
        (get_or-set_self hs i none none l) v

  assign-Safe :
      (h : Heap T) (i j : ℕ)
      → i < length h.holders
      → j < length h.holders
      → IsOwned h
      → Safe (assign i j h)
  unfolding assign destroy
  assign-Safe h i j l m v =
      if_cases Safe (i == j) (some h)
        (then_exchanged i j (emptied i h.holders (destroy_frame (handle h i) h.frames))) (λ _. v)
        (λ e.
          exchanged-Safe h.holders i j (destroy_frame (handle h i) h.frames) (differ i j e) l m
            (destroy-Safe h i l v))
    where
      differ : (i j : ℕ) → i == j ≡ false → i ≢ j
      differ i j e p = ground arith

  with_promise-Safe :
      (g : Promise T → Promise T) (h : Heap T) (k : ℕ)
      → alive_at h.frames k ≡ true
      → IsOwned h
      → Safe (with_promise g (some k) h)
  with_promise-Safe g h k e v =
      subst
        (λ b. Safe (
          if b
          then some
              (record h { frames = change (λ f. record f { promise = g f.promise }) k h.frames })
          else none))
        (sym e) (λ j. v j ∙ ap one (sym (alive_at-change g h.frames k j)))

  -- A use of the promise of an object that is not empty.
  used-Safe :
      (g : Promise T → Promise T) (h : Heap T) (i : ℕ) (x : Option ℕ)
      → x ≡ handle h i
      → IsOwned h
      → Safe (if is_none x then some h else with_promise g x h)
  used-Safe g h i none e v = v
  used-Safe g h i (some k) e v = with_promise-Safe g h k (handle_alive h i k (sym e) v) v

  -- Only a frame that exists runs.
  abbrev pub runs : (Promise T → Promise T) → ℕ → Heap T → Option (Heap T)
  runs g k h = if alive_at h.frames k then with_promise g (some k) h else some h

  abbrev pub with_object : ℕ → Heap T → Option (Heap T) → Option (Heap T)
  with_object i h r = if ltb i (length h.holders) then r else some h

  unfoldable pub step : Heap T → Step T → Option (Heap T)
  step h make = some (create h)
  step h make_empty = some (create_empty h)
  step h (move i) = with_object i h (some (move_from i h))
  step h (await i) = with_object i h (some (move_from i h))
  step h (drop i) = with_object i h (destroy i h)
  step h (move_into i j) = with_object i h (with_object j h (assign i j h))
  step h (suspend i c) = await_suspend i c h
  step h (resume i) = await_resume i h
  step h (finish k v) = runs (return_value v) k h
  step h (throw k e) = runs (unhandled_exception e) k h

  with_object-Safe :
      (i : ℕ) (h : Heap T) (r : Option (Heap T))
      → IsOwned h
      → (i < length h.holders → Safe r)
      → Safe (with_object i h r)
  with_object-Safe i h r v f =
      if_cases Safe (ltb i (length h.holders)) r (some h) (λ e. f (ltb→lt i (length h.holders) e))
        (λ _. v)

  runs-Safe : (g : Promise T → Promise T) (k : ℕ) (h : Heap T) → IsOwned h → Safe (runs g k h)
  runs-Safe g k h v =
      if_cases Safe (alive_at h.frames k) (with_promise g (some k) h) (some h)
        (λ e. with_promise-Safe g h k e v) (λ _. v)

  step-Safe : (h : Heap T) (s : Step T) → IsOwned h → Safe (step h s)
  unfolding step await_suspend await_resume await_ready
  step-Safe h make v = create-IsOwned h v
  step-Safe h make_empty v = create_empty-IsOwned h v
  step-Safe h (move i) v =
      with_object-Safe i h (some (move_from i h)) v (λ l. move_from-IsOwned h i l v)
  step-Safe h (await i) v =
      with_object-Safe i h (some (move_from i h)) v (λ l. move_from-IsOwned h i l v)
  step-Safe h (drop i) v = with_object-Safe i h (destroy i h) v (λ l. destroy-Safe h i l v)
  step-Safe h (move_into i j) v =
      with_object-Safe i h (with_object j h (assign i j h)) v
        (λ l. with_object-Safe j h (assign i j h) v (λ m. assign-Safe h i j l m v))
  step-Safe h (suspend i c) v = used-Safe (set_continuation c) h i (handle h i) refl v
  step-Safe h (resume i) v = used-Safe (λ p. (take_result p).1) h i (handle h i) refl v
  step-Safe h (finish k x) v = runs-Safe (return_value x) k h v
  step-Safe h (throw k e) v = runs-Safe (unhandled_exception e) k h v

  abbrev pub continued : (Heap T → Option (Heap T)) → Option (Heap T) → Option (Heap T)
  continued k none = none
  continued k (some h) = k h

  unfoldable pub run : List (Step T) → Heap T → Option (Heap T)
  run [] h = some h
  run (s ∷ ss) h = continued (run ss) (step h s)

  continued-Safe :
      (k : Heap T → Option (Heap T)) (r : Option (Heap T))
      → ((h : Heap T) → IsOwned h → Safe (k h))
      → Safe r
      → Safe (continued k r)
  continued-Safe k none f v = v
  continued-Safe k (some h) f v = f h v

  run_from : (ss : List (Step T)) (h : Heap T) → IsOwned h → Safe (run ss h)
  unfolding run
  run_from [] h v = v
  run_from (s ∷ ss) h v = continued-Safe (run ss) (step h s) (λ u. run_from ss u) (step-Safe h s v)

-- Let a program start with no tasks, and create, move, assign, await, suspend on, resume and destroy
-- tasks and awaiters in any order, while coroutines return or throw. It never destroys a frame that
-- does not exist, nor uses the promise of one, and at any time each frame that exists is owned by
-- exactly one task or awaiter, and no task or awaiter has the handle of one that was destroyed.
pub run-Safe :
    {T : Type 0} (ss : List (Step T)) → Safe (run ss (record { frames = []; holders = [] }))
run-Safe ss = run_from ss (record { frames = []; holders = [] }) (λ k. refl)
