-- ===== src/Loop/Due.antt =====
-- The timers that fall due in `loop::expire`.
use mathlib.Core.List.{Perm}
use mathlib.Core.List.Perm
use native.Mathlib.Bridge.{le_prop}
use snowy.Prelude.{
  ℕ, zero, suc, ◌≤◌, ◌<◌, ◌≡◌, refl, sym, ap, ◌∙◌, subst, false, none, List, [], ◌∷◌, ◌++◌,
  append-nil, append_assoc, leb, leb→le, length, All, All-map, All-perm, All-left, length-perm,
  arith, map, if_cases,
}
use snowy.Loop.{Timer, Work, finish}
use snowy.Loop.Heap.{StdHeap}
use snowy.Loop.Expire.{drop_last, pop_due}

abbrev pub ended : Timer → Work
ended t = record { id = t.id; error = none }

-- Deadlines in order.
abbrev pub InOrder : List Timer → Type 0
InOrder [] = Unit
InOrder (t ∷ ts) = All (λ (u : Timer). t.due ≤ u.due) ts × InOrder ts

pub drop_last-append : (us : List Timer) (t : Timer) → drop_last (us ++ (t ∷ [])) ≡ us
drop_last-append [] t = refl
drop_last-append (u ∷ []) t = refl
drop_last-append (u ∷ v ∷ us) t = ap (λ ws. u ∷ ws) (drop_last-append (v ∷ us) t)

-- What the pass over the due timers does: `done` end in order, the others stay in the heap.
abbrev pub Expired : StdHeap → ℕ → List Timer → List Work → List Timer × List Work → Type 0
Expired heap now ts ready r =
    (done : List Timer) × (r.1 ≡ ready ++ map ended done)
    × Perm (done ++ r.0) ts
    × All (λ (t : Timer). t.due ≤ now) done
    × All (λ (t : Timer). now < t.due) r.0
    × InOrder done
    × heap.IsHeap r.0

module _ (heap : StdHeap) where
  late :
      (now : ℕ) (t : Timer) (ts : List Timer)
      → heap.IsHeap (t ∷ ts)
      → leb t.due now ≡ false
      → All (λ (u : Timer). now < u.due) (t ∷ ts)
  late now t ts h e = (
    ground arith,
    All-map (λ u. t.due ≤ u.due) (λ u. now < u.due) ts (λ u g. ground arith)
        (heap.front_first t ts h),
  )

  popped :
      (t : Timer) (ts : List Timer)
      → heap.IsHeap (t ∷ ts)
      → heap.IsHeap (drop_last (heap.pop_heap (t ∷ ts)))
        × Perm (drop_last (heap.pop_heap (t ∷ ts))) ts
  popped t ts h =
      let (us, e, k, p) = heap.pop_moves t ts h in
      let d = ap drop_last e ∙ drop_last-append us t in
      (subst heap.IsHeap (sym d) k, subst (λ ws. Perm ws ts) (sym d) p)

  grown :
      (now : ℕ) (t : Timer) (ts us : List Timer) (ready : List Work) (r : List Timer × List Work)
      → heap.IsHeap (t ∷ ts)
      → t.due ≤ now
      → Perm us ts
      → Expired heap now us (finish t.id none ready) r
      → Expired heap now (t ∷ ts) ready r
  grown now t ts us ready r h le p (done, e, q, d, l, o, k) = (
    t ∷ done,
    e ∙ append_assoc ready _ _,
    Perm.cons t (Perm.trans q p),
    (le, d),
    l,
    (
      All-left _ done r.0 (
          All-perm (λ (u : Timer). t.due ≤ u.due) (λ u. le_prop) (Perm.symm (Perm.trans q p))
            (heap.front_first t ts h)),
      o,
    ),
    k,
  )

  pub pop_due_expires :
      (fuel now : ℕ) (ts : List Timer) (ready : List Work)
      → heap.IsHeap ts
      → length ts ≤ fuel
      → Expired heap now ts ready (pop_due heap fuel now ts ready)
  unfolding pop_due
  pop_due_expires zero now [] ready h le = ([], sym (append-nil ready), Perm.refl [], tt, tt, tt, h)
  pop_due_expires zero now (t ∷ ts) ready h le = absurd (omega arith)
  pop_due_expires (suc fuel) now [] ready h le =
      ([], sym (append-nil ready), Perm.refl [], tt, tt, tt, h)
  pop_due_expires (suc fuel) now (t ∷ ts) ready h le =
      let (k, p) = popped t ts h in
      if_cases (Expired heap now (t ∷ ts) ready) (leb t.due now) _ _
        (λ e.
          grown now t ts _ ready _ h (leb→le _ _ e) p
            (pop_due_expires fuel now _ (finish t.id none ready) k (omega (arith, length-perm p))))
        (λ e. ([], sym (append-nil ready), Perm.refl (t ∷ ts), tt, late now t ts h e, tt, h))
