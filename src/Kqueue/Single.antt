-- ===== src/Kqueue/Single.antt =====
-- Each request completes once, and no filter names one that has completed.
use snowy.Prelude.{
  ℕ, zero, suc, ◌+◌, ◌≡◌, refl, ap, ◌∙◌, subst, Bool, true, false, ◌&&◌, Option, none, some, List,
  [], ◌∷◌, ◌++◌, ◌==◌, if◌then◌else◌, if_cases, same, All, All-append, arith,
}
use snowy.Kqueue.{Request, same_filter, forget, reads}

abbrev pub one : Bool → ℕ
one true = 1
one false = 0

-- How often a request stands in a list.
abbrev pub occurs : ℕ → List Request → ℕ
occurs k [] = 0
occurs k (r ∷ rs) = one (r.id == k) + occurs k rs

-- No filter has the descriptor and direction of a request; no two filters have the same.
abbrev pub Absent : Request → List Request → Type 0
Absent r fs = All (λ g. same_filter r g ≡ false) fs

abbrev pub Keyed : List Request → Type 0
Keyed [] = Unit
Keyed (f ∷ fs) = Absent f fs × Keyed fs

pub occurs-append : (k : ℕ) (xs ys : List Request) → occurs k (xs ++ ys) ≡ occurs k xs + occurs k ys
occurs-append k [] ys = omega arith
occurs-append k (x ∷ xs) ys = omega (arith, occurs-append k xs ys)

same_filter_comm : (r f : Request) → same_filter r f ≡ same_filter f r
same_filter_comm r f = both (reads f.code) (reads r.code)
  where
    both : (a b : Bool) → f.fd == r.fd && same a b ≡ r.fd == f.fd && same b a
    both true true = ground arith
    both true false = ground arith
    both false true = ground arith
    both false false = ground arith

same_filter_self : (r : Request) → same_filter r r ≡ true
same_filter_self r = self (reads r.code)
  where
    self : (a : Bool) → r.fd == r.fd && same a a ≡ true
    self true = ground arith
    self false = ground arith

pub forget-Absent : (r : Request) (fs : List Request) → Absent r fs → forget r fs ≡ fs
forget-Absent r [] h = refl
forget-Absent r (f ∷ fs) h =
    ap (λ (b : Bool). if b then forget r fs else f ∷ forget r fs) h.0
    ∙ ap (λ l. f ∷ l) (forget-Absent r fs h.1)

pub Absent-forget : (r : Request) (fs : List Request) → Absent r (forget r fs)
Absent-forget r [] = tt
Absent-forget r (f ∷ fs) =
    if_cases (Absent r) (same_filter r f) (forget r fs) (f ∷ forget r fs) (λ _. Absent-forget r fs)
      (λ e. (e, Absent-forget r fs))

Absent-kept : (r g : Request) (fs : List Request) → Absent g fs → Absent g (forget r fs)
Absent-kept r g [] h = tt
Absent-kept r g (f ∷ fs) h =
    if_cases (Absent g) (same_filter r f) (forget r fs) (f ∷ forget r fs)
      (λ _. Absent-kept r g fs h.1) (λ _. (h.0, Absent-kept r g fs h.1))

pub Keyed-forget : (r : Request) (fs : List Request) → Keyed fs → Keyed (forget r fs)
Keyed-forget r [] h = tt
Keyed-forget r (f ∷ fs) h =
    if_cases Keyed (same_filter r f) (forget r fs) (f ∷ forget r fs) (λ _. Keyed-forget r fs h.1)
      (λ _. (Absent-kept r f fs h.0, Keyed-forget r fs h.1))

pub Keyed-add : (r : Request) (fs : List Request) → Absent r fs → Keyed fs → Keyed (fs ++ (r ∷ []))
Keyed-add r [] a h = (tt, tt)
Keyed-add r (f ∷ fs) a h = (
  All-append (λ g. same_filter f g ≡ false) fs (r ∷ []) h.0 (same_filter_comm f r ∙ a.0, tt),
  Keyed-add r fs a.1 h.1,
)

-- A filter at a place.
abbrev pub filter_at : ℕ → List Request → Option Request
filter_at i [] = none
filter_at zero (f ∷ fs) = some f
filter_at (suc i) (f ∷ fs) = filter_at i fs

Absent-at :
    (i : ℕ) (r f : Request) (fs : List Request)
    → filter_at i fs ≡ some r
    → Absent f fs
    → same_filter f r ≡ false
Absent-at i r f [] e h = cc
Absent-at zero r f (g ∷ fs) e h = subst (λ (x : Option Request). at_some x) e h.0
  where
    at_some : Option Request → Type 0
    at_some none = Unit
    at_some (some x) = same_filter f x ≡ false
Absent-at (suc i) r f (g ∷ fs) e h = Absent-at i r f fs e h.1

-- Taking a filter out takes the request that it names, and no other.
pub occurs-forget :
    (i : ℕ) (r : Request) (fs : List Request) (k : ℕ)
    → filter_at i fs ≡ some r
    → Keyed fs
    → occurs k (forget r fs) + one (r.id == k) ≡ occurs k fs
occurs-forget i r [] k e h = cc
occurs-forget zero r (f ∷ fs) k e h = subst at_some e first
  where
    at_some : Option Request → Type 0
    at_some none = Unit
    at_some (some x) = occurs k (forget x (f ∷ fs)) + one (x.id == k) ≡ occurs k (f ∷ fs)

    first : occurs k (forget f (f ∷ fs)) + one (f.id == k) ≡ one (f.id == k) + occurs k fs
    first =
        ap (λ (b : Bool). occurs k (if b then forget f fs else f ∷ forget f fs) + one (f.id == k))
          (same_filter_self f)
        ∙ ap (λ l. occurs k l + one (f.id == k)) (forget-Absent f fs h.0)
        ∙ omega arith
occurs-forget (suc i) r (f ∷ fs) k e h =
    ap (λ (b : Bool). occurs k (if b then forget r fs else f ∷ forget r fs) + one (r.id == k))
      (same_filter_comm r f ∙ Absent-at i r f fs e h.0)
    ∙ omega (arith, occurs-forget i r fs k e h.1)
