-- ===== src/Spawn/Join.antt =====
-- What the join handles of spawn.hpp see.
use snowy.Prelude.{
  ℕ, ◌≡◌, refl, sym, ap, ◌∙◌, Bool, true, false, not, none, some, List, [], ◌∷◌, ◌==◌,
  if◌then◌else◌, if_cases, is_empty, arith, Bool-cases, inl, inr,
}
use snowy.WaitQueue.{Waiter, enqueue}
use snowy.Futex.{Futex, wait}
use snowy.Futex.Notify.{notify_all_wakes}
use snowy.When.{Outcome, value, thrown}
use snowy.Spawn.{
  Stage, running, stored, completed, announced, SpawnState, Taken, returned, raised, create, take,
  store, complete, announce, publish, join,
}

pub data Step : Type 0 where
  -- The task goes on publishing; a handle joins on a loop.
  publishes : Step
  joins : ℕ → ℕ → Step

abbrev is_stored : Stage → Bool
is_stored running = false
is_stored _ = true

abbrev is_complete : Stage → Bool
is_complete running = false
is_complete stored = false
is_complete _ = true

abbrev is_announced : Stage → Bool
is_announced announced = true
is_announced _ = false

complete_by : (stage : Stage) → is_announced stage ≡ true → is_complete stage ≡ true
complete_by announced e = refl
complete_by running e = absurd (cc)
complete_by stored e = absurd (cc)
complete_by completed e = absurd (cc)

stored_by : (stage : Stage) → is_complete stage ≡ true → is_stored stage ≡ true
stored_by running e = absurd (cc)
stored_by stored e = absurd (cc)
stored_by completed e = refl
stored_by announced e = refl

one_not_zero : (n : ℕ) → n ≡ 1 → not (n == 0) ≡ false → ⊥
one_not_zero n e z = ground arith

not_yet :
    (stage : Stage) (n : ℕ)
    → n ≡ (if is_complete stage then 1 else 0)
    → not (n == 0) ≡ true
    → is_complete stage ≡ true
not_yet running n e z = ground arith
not_yet stored n e z = ground arith
not_yet completed n e z = refl
not_yet announced n e z = refl

module _ {V : Type 0} where
  abbrev pub given : Outcome V → Taken V
  given (value v) = returned v
  given (thrown e) = raised e

  module _ (stopped : ℕ → Bool) (o : Outcome V) where
    unfoldable pub step : SpawnState V → Step → SpawnState V
    step s publishes = publish stopped o s
    step s (joins id owner) = (join stopped s id owner).2

    unfoldable pub run : SpawnState V → List Step → SpawnState V
    run s [] = s
    run s (e ∷ es) = run (step s e) es

    record Sound (s : SpawnState V) : Type 0 where
      pub blank : is_stored s.stage ≡ false → (s.result ≡ none) × (s.error ≡ none)
      pub kept : is_stored s.stage ≡ true → take s ≡ given o
      pub flagged : s.signal.value ≡ (if is_complete s.stage then 1 else 0)
      pub done_too : s.done ≡ is_complete s.stage
      pub unsent : is_complete s.stage ≡ false → s.signal.sent ≡ []
      pub woken : is_announced s.stage ≡ true → s.signal.waiters ≡ []

    -- Whoever goes on finds the result: a handle that does not suspend, one that was woken, a thread
    -- that saw `done`. Once `publish` is through, no handle waits.
    abbrev pub Sees : SpawnState V → Type 0
    Sees s =
        ((id owner : ℕ) → (join stopped s id owner).0 ≡ false → take s ≡ given o)
        × (is_empty s.signal.sent ≡ false → take s ≡ given o)
        × (s.done ≡ true → take s ≡ given o)
        × (s.stage ≡ announced → s.signal.waiters ≡ [])

    stored-take :
        (s : SpawnState V) (r : Outcome V)
        → s.result ≡ none
        → s.error ≡ none
        → take (store s r) ≡ given r
    unfolding take store
    stored-take s (value v) er ee = ap (λ x. elim x [ some e ↦ raised e | none ↦ returned v ]) ee
    stored-take s (thrown e) er ee = refl

    publish-Sound :
        (s : SpawnState V) (stage : Stage)
        → Sound (record s { stage = stage })
        → Sound (publish stopped o (record s { stage = stage }))
    unfolding publish store complete announce take
    publish-Sound s running h = record {
      blank = λ e. absurd (cc);
      kept = λ e. stored-take s o (h.blank refl).0 (h.blank refl).1;
      flagged = h.flagged;
      done_too = h.done_too;
      unsent = λ e. h.unsent refl;
      woken = λ e. absurd (cc);
    }
    publish-Sound s stored h = record {
      blank = λ e. absurd (cc);
      kept = λ e. h.kept refl;
      flagged = refl;
      done_too = refl;
      unsent = λ e. absurd (cc);
      woken = λ e. absurd (cc);
    }
    publish-Sound s completed h =
        let (w, _, v) = notify_all_wakes stopped s.signal in
        record {
          blank = λ e. absurd (cc);
          kept = λ e. h.kept refl;
          flagged = v ∙ h.flagged;
          done_too = h.done_too;
          unsent = λ e. absurd (cc);
          woken = λ e. w;
        }
    publish-Sound s announced h = h

    join-Sound : (s : SpawnState V) (id owner : ℕ) → Sound s → Sound ((join stopped s id owner).2)
    unfolding join wait enqueue take
    join-Sound s id owner h =
        if_cases (λ (r : Bool × Waiter ℕ × Futex). Sound (record s { signal = r.2 }))
          (not (s.signal.value == 0)) _ _ (λ _. h)
          (λ z. record {
            blank = h.blank;
            kept = h.kept;
            flagged = h.flagged;
            done_too = h.done_too;
            unsent = h.unsent;
            woken = λ e. absurd (
                one_not_zero s.signal.value
                  (h.flagged ∙ ap (λ b. if b then 1 else 0) (complete_by s.stage e)) z);
          })

    step-Sound : (s : SpawnState V) (e : Step) → Sound s → Sound (step s e)
    unfolding step
    step-Sound s publishes h = publish-Sound s s.stage h
    step-Sound s (joins id owner) h = join-Sound s id owner h

    run-Sound : (s : SpawnState V) (es : List Step) → Sound s → Sound (run s es)
    unfolding run
    run-Sound s [] h = h
    run-Sound s (e ∷ es) h = run-Sound (step s e) es (step-Sound s e h)

    create-Sound : Sound create
    unfolding create
    create-Sound = record {
      blank = λ e. (refl, refl);
      kept = λ e. absurd (cc);
      flagged = refl;
      done_too = refl;
      unsent = λ e. refl;
      woken = λ e. absurd (cc);
    }

    woken_complete :
        (s : SpawnState V) → Sound s → is_empty s.signal.sent ≡ false → is_complete s.stage ≡ true
    woken_complete s h e = elim (Bool-cases (is_complete s.stage)) [
      | inl c ↦ c
      | inr n ↦ absurd (cc (sym (ap is_empty (h.unsent n)) ∙ e))
    ]

    joined_complete :
        (s : SpawnState V) (id owner : ℕ)
        → Sound s
        → (join stopped s id owner).0 ≡ false
        → is_complete s.stage ≡ true
    unfolding join wait enqueue
    joined_complete s id owner h =
        if_cases (λ (r : Bool × Waiter ℕ × Futex). r.0 ≡ false → is_complete s.stage ≡ true)
          (not (s.signal.value == 0)) _ _ (λ z _. not_yet s.stage s.signal.value h.flagged z)
          (λ _ e. absurd (cc))

    sees : (s : SpawnState V) → Sound s → Sees s
    sees s h = (
      λ id owner e. h.kept (stored_by s.stage (joined_complete s id owner h e)),
      λ e. h.kept (stored_by s.stage (woken_complete s h e)),
      λ e. h.kept (stored_by s.stage (sym h.done_too ∙ e)),
      λ e. h.woken (ap is_announced e),
    )

    -- Whatever the task and its handles do, in any order, a handle that does not suspend, one that was
    -- woken and a thread that saw `done` take exactly what the task gave, its value or its exception,
    -- and once the task has published, no handle waits any more.
    pub run-Sees : (es : List Step) → Sees (run create es)
    run-Sees es = sees (run create es) (run-Sound create es create-Sound)
