-- ===== src/Uring/Linked.antt =====
-- One request of uring.cpp through a submission, a cancellation and its retirement, against what the
-- kernel owes it.
use snowy.Prelude.{
  ℕ, ◌+◌, ◌≡◌, refl, sym, ap, ◌∙◌, subst, Bool, true, false, not, ◌&&◌, none, List, [], ◌∷◌, ◌++◌,
  ◌==◌, ==_eq, ==_refl, if◌then◌else◌, if_cases, arith, Bool-cases, ◌⊎◌, inl, inr,
}
use snowy.Uring.{is_storage, Request, update, submit, cancel, retire, set_request}
use snowy.Uring.Kernel.{System, submitted_as, count, Tracked, Tracks}

pub count-append : (id : ℕ) (xs ys : List ℕ) → count id (xs ++ ys) ≡ count id xs + count id ys
count-append id [] ys = omega arith
count-append id (x ∷ xs) ys = ground (arith, count-append id xs ys)

pub count_same : (id : ℕ) (xs : List ℕ) → count id (xs ++ (id ∷ [])) ≡ count id xs + 1
count_same id xs =
    count-append id xs (id ∷ []) ∙ ap (λ b. count id xs + (if b then 1 else 0)) (==_refl id)

pub count_other :
    (id j : ℕ) (xs : List ℕ) → id == j ≡ false → count j (xs ++ (id ∷ [])) ≡ count j xs
count_other id j xs e =
    count-append j xs (id ∷ []) ∙ ap (λ b. count j xs + (if b then 1 else 0)) e ∙ omega arith

-- A property of the address `id`, changed, and of every other one, unchanged.
pub at_each :
    (Q : ℕ → Bool → Type 0) (id : ℕ)
    → Q id true
    → ((j : ℕ) → id == j ≡ false → Q j false)
    → (j : ℕ) → Q j (id == j)
at_each Q id here others j = elim (Bool-cases (id == j)) [
  | inl e ↦ subst (Q j) (sym e) (subst (λ k. Q k true) (==_eq id j e) here)
  | inr e ↦ subst (Q j) (sym e) (others j e)
]

-- A request that the kernel owes something is linked.
pub linked_by :
    (s : System) (id : ℕ)
    → Tracks s
    → (s.owes_result id ≡ true) ⊎ (s.owes_cancel id ≡ true)
    → s.driver.linked id ≡ true
linked_by s id t owed = elim (Bool-cases (s.driver.linked id)) [
  | inl e ↦ e
  | inr e ↦
      absurd
        (elim owed [ inl r ↦ cc (r, (t id).free_result e) | inr c ↦ cc (c, (t id).free_cancel e) ])
]

pub one_more :
    (n m : ℕ) (linked b : Bool)
    → n ≡ m + (if linked then 1 else 0)
    → linked ≡ b
    → n ≡ m + (if b then 1 else 0)
one_more n m linked b h e = h ∙ ap (λ c. m + (if c then 1 else 0)) e

pub recount :
    {l d ca se r c : Bool} {m n m' n' : ℕ}
    → Tracked l d ca se r c m n
    → m' ≡ m
    → n' ≡ n
    → Tracked l d ca se r c m' n'
recount {l} {d} {ca} {se} {r} {c} {m} {n} {m'} {n'} h e f =
    subst (λ k. Tracked l d ca se r c k n') (sym e)
      (subst (λ k. Tracked l d ca se r c m k) (sym f) h)

pub submitted-Tracks :
    (s : System) (id : ℕ) (op : Request)
    → s.driver.linked id ≡ false
    → Tracks s
    → Tracks (submitted_as s id (submit s.driver id op))
unfolding submit update
submitted-Tracks s id op e t =
    if_cases (λ d. Tracks (submitted_as s id d)) (s.driver.iopoll && not (is_storage op.code)) none
      _ (λ _. t)
      (λ _.
        at_each
          (λ j b.
            Tracked (if b then true else s.driver.linked j)
              (if b then fresh else s.driver.request j).done
              (if b then fresh else s.driver.request j).canceling
              (if b then fresh else s.driver.request j).cancel_sent
              (if b then true else s.owes_result j) (s.owes_cancel j)
              (count j (s.submitted ++ (id ∷ []))) (count j s.driver.completed))
          id
          (record {
            result_noted = λ _. refl;
            cancel_noted = λ _. (t id).free_cancel e;
            waits = λ _ h. absurd (cc);
            sent_first = λ _ h. absurd (cc);
            free_result = λ h. absurd (cc);
            free_cancel = λ h. absurd (cc);
            counted =
                count_same id s.submitted
                ∙ ap (λ n. n + 1) (one_more _ _ _ false (t id).counted e)
                ∙ omega arith;
          })
          (λ j o. recount (t j) (count_other id j s.submitted o) refl))
  where
    fresh : Request
    fresh = record op {
      draining = op.drains_first;
      canceling = false;
      cancel_sent = false;
      done = false;
    }

pub canceling-Tracks :
    (s : System) (id : ℕ)
    → s.driver.linked id ≡ true
    → (s.driver.request id).cancel_sent ≡ false
    → Tracks s
    → Tracks (record s { driver = cancel s.driver id; owes_cancel = update s.owes_cancel id true })
unfolding cancel update
canceling-Tracks s id l unsent t =
    at_each
      (λ j b.
        Tracked (s.driver.linked j) (if b then marked else s.driver.request j).done
          (if b then marked else s.driver.request j).canceling
          (if b then marked else s.driver.request j).cancel_sent (s.owes_result j)
          (if b then true else s.owes_cancel j) (count j s.submitted) (count j s.driver.completed))
      id
      (record {
        result_noted = (t id).result_noted;
        cancel_noted = λ _. refl;
        waits = λ _ _. refl;
        sent_first = λ _ _. refl;
        free_result = (t id).free_result;
        free_cancel = λ h. absurd (cc);
        counted = (t id).counted;
      })
      (λ j o. t j)
  where
    marked : Request
    marked = record (s.driver.request id) { canceling = true; cancel_sent = true }

-- A retired request, of which nothing is owed any more.
pub retired-Tracks :
    (s : System) (id : ℕ) (op : Request) (owes_r owes_c : Bool)
    → s.driver.linked id ≡ true
    → owes_r ≡ false
    → owes_c ≡ false
    → Tracks s
    → Tracks (record s {
      driver = retire (set_request s.driver id op) id;
      owes_result = update s.owes_result id owes_r;
      owes_cancel = update s.owes_cancel id owes_c;
    })
unfolding retire update
retired-Tracks s id op owes_r owes_c l er ec t =
    at_each
      (λ j b.
        Tracked (if b then false else s.driver.linked j) (if b then op else s.driver.request j).done
          (if b then op else s.driver.request j).canceling
          (if b then op else s.driver.request j).cancel_sent (if b then owes_r else s.owes_result j)
          (if b then owes_c else s.owes_cancel j) (count j s.submitted)
          (count j (s.driver.completed ++ (id ∷ []))))
      id
      (record {
        result_noted = λ h. absurd (cc);
        cancel_noted = λ h. absurd (cc);
        waits = λ h. absurd (cc);
        sent_first = λ h. absurd (cc);
        free_result = λ _. er;
        free_cancel = λ _. ec;
        counted =
            omega (arith, one_more _ _ _ true (t id).counted l, count_same id s.driver.completed);
      })
      (λ j o. recount (t j) refl (count_other id j s.driver.completed o))

-- A request of which something is still owed.
pub kept-Tracks :
    (s : System) (id : ℕ) (op : Request) (owes_r owes_c : Bool)
    → s.driver.linked id ≡ true
    → owes_r ≡ not op.done
    → owes_c ≡ op.canceling
    → (op.done ≡ true → op.canceling ≡ true)
    → (op.canceling ≡ true → op.cancel_sent ≡ true)
    → Tracks s
    → Tracks (record s {
      driver = set_request s.driver id op;
      owes_result = update s.owes_result id owes_r;
      owes_cancel = update s.owes_cancel id owes_c;
    })
unfolding update
kept-Tracks s id op owes_r owes_c l er ec w sf t =
    at_each
      (λ j b.
        Tracked (s.driver.linked j) (if b then op else s.driver.request j).done
          (if b then op else s.driver.request j).canceling
          (if b then op else s.driver.request j).cancel_sent (if b then owes_r else s.owes_result j)
          (if b then owes_c else s.owes_cancel j) (count j s.submitted)
          (count j s.driver.completed))
      id
      (record {
        result_noted = λ _. er;
        cancel_noted = λ _. ec;
        waits = λ _. w;
        sent_first = λ _. sf;
        free_result = λ h. absurd (cc (h, l));
        free_cancel = λ h. absurd (cc (h, l));
        counted = (t id).counted;
      })
      (λ j o. t j)
