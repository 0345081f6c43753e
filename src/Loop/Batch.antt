-- ===== src/Loop/Batch.antt =====
-- The bounded batch of ready work in a round of `loop::run`.
use snowy.Prelude.{
  ℕ, zero, suc, ◌≡◌, refl, sym, ap, ◌∙◌, ◌⊎◌, inl, inr, List, [], ◌∷◌, ◌++◌, append-nil,
  append_assoc, length,
}
use snowy.Loop.{Loop, Work}
use snowy.Loop.Run.{run_ready}

module _ (resume : Work → Loop → Loop) (added : Work → Loop → List Work)
    -- A coroutine that runs queues work behind what is ready.
    (queues : (w : Work) (l : Loop) → (resume w l).ready ≡ l.ready ++ added w l) where
  -- The work that the batch resumes, and what that adds.
  unfoldable pub resumed : ℕ → Loop → List Work
  resumed zero l = []
  resumed (suc n) l = elim l.ready [
    | [] ↦ []
    | w ∷ ws ↦ w ∷ resumed n (resume w (record l { ready = ws }))
  ]

  unfoldable pub added_by : ℕ → Loop → List Work
  added_by zero l = []
  added_by (suc n) l = elim l.ready [
    | [] ↦ []
    | w ∷ ws ↦ added w (record l { ready = ws }) ++ added_by n (resume w (record l { ready = ws }))
  ]

  abbrev pub InTurn : ℕ → Loop → Type 0
  InTurn n l =
      (resumed n l ++ (run_ready resume n l).ready ≡ l.ready ++ added_by n l)
      × ((length (resumed n l) ≡ n) ⊎ ((run_ready resume n l).ready ≡ []))

  turn :
      (n : ℕ) (l : Loop) (ws : List Work)
      → ((l' : Loop) → InTurn n l')
      → InTurn (suc n) (record l { ready = ws })
  unfolding resumed added_by run_ready
  turn n l [] ih = (refl, inr refl)
  turn n l (w ∷ ws) ih =
      let rest = record l { ready = ws } in
      let next = resume w rest in
      let (e, stops) = ih next in
      (
        ap (λ us. w ∷ us)
            (e ∙ ap (λ us. us ++ added_by n next) (queues w rest) ∙ append_assoc ws _ _),
        elim stops [ inl full ↦ inl (ap suc full) | inr none_left ↦ inr none_left ],
      )

  -- When a coroutine only queues work behind what is ready, a batch resumes the ready work from the
  -- front, in its order and without loss: what it resumes, followed by what is ready afterwards, is
  -- what was ready, followed by what was added. It stops at the budget or when nothing is ready.
  pub batch-InTurn : (n : ℕ) (l : Loop) → InTurn n l
  unfolding resumed added_by run_ready
  batch-InTurn zero l = (sym (append-nil l.ready), inl refl)
  batch-InTurn (suc n) l = turn n l l.ready (batch-InTurn n)
