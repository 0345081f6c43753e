-- ===== src/Syscalls/Vectors.antt =====
-- What the checks of uring_extra.cpp let through.
use snowy.Prelude.{
  ℕ, ◌+◌, ◌%◌, ◌^◌, ◌≤◌, ◌≡◌, ap, subst, ◌∙◌, ◌↔◌, Bool, true, false, not, ◌&&◌, ◌||◌, Option, none,
  some, List, [], ◌∷◌, ltb, ◌==◌, if◌then◌else◌, if_cases, is_none, length, All, arith,
}
use snowy.File.{int_max, int64_max}
use snowy.Syscalls.{Vector, iov_max, sub_wide, scan, fits_behind, vectors}

abbrev pub total_of : List Vector → ℕ
total_of [] = 0
total_of (v ∷ vs) = v.len + total_of vs

-- A vector that is not empty has a buffer.
abbrev pub HasBuffer : Vector → Type 0
HasBuffer v = is_none v.base && not (v.len == 0) ≡ false

-- What a transfer over vectors may be.
abbrev pub InRange : List Vector → ℕ → Type 0
InRange vs offset =
    (length vs ≤ iov_max)
    × (total_of vs ≤ int_max)
    × (offset + total_of vs ≤ int64_max)
    × All HasBuffer vs

scan-some :
    (total : ℕ) (vs : List Vector)
    → total + total_of vs ≤ int_max
    → All HasBuffer vs
    → scan total vs ≡ some (total + total_of vs)
unfolding scan
scan-some total [] h b = ap some (omega arith)
scan-some total (v ∷ vs) h b =
    if_cases (λ r. r ≡ some (total + (v.len + total_of vs)))
      (ltb (sub_wide int_max total) v.len || (is_none v.base && not (v.len == 0))) none _
      (λ e. absurd (small_enough total v.len _ (omega arith) b.0 e))
      (λ _.
        ap (λ t. scan t vs) (omega arith)
        ∙ scan-some (total + v.len) vs (omega arith) b.1
        ∙ ap some (omega arith))
  where
    small_enough :
        (total len : ℕ) (missing : Bool)
        → total + len ≤ int_max
        → missing ≡ false
        → ltb (sub_wide int_max total) len || missing ≡ true
        → ⊥
    small_enough total len missing h m e = ground arith

-- What the loop has found when it ends with a total.
abbrev Found : ℕ → List Vector → Option ℕ → Type 0
Found total vs none = Unit
Found total vs (some t) = (t ≡ total + total_of vs) × (t ≤ int_max) × All HasBuffer vs

bounded :
    (total len : ℕ) (missing : Bool)
    → total ≤ int_max
    → ltb (sub_wide int_max total) len || missing ≡ false
    → (total + len ≤ int_max) × (missing ≡ false)
bounded total len missing h e = ground arith

Found-more :
    (total : ℕ) (v : Vector) (vs : List Vector) (r : Option ℕ)
    → is_none v.base && not (v.len == 0) ≡ false
    → Found (total + v.len) vs r
    → Found total (v ∷ vs) r
Found-more total v vs none b f = tt
Found-more total v vs (some t) b (e, le, all) = (omega (arith, e), le, (b, all))

scan-Found : (total : ℕ) (vs : List Vector) → total ≤ int_max → Found total vs (scan total vs)
unfolding scan
scan-Found total [] h = (omega arith, h, tt)
scan-Found total (v ∷ vs) h =
    if_cases (Found total (v ∷ vs))
      (ltb (sub_wide int_max total) v.len || (is_none v.base && not (v.len == 0))) none
      (scan ((total + v.len) % 2 ^ 64) vs) (λ _. tt)
      (λ e.
        let (le, b) = bounded total v.len (is_none v.base && not (v.len == 0)) h e in
        Found-more total v vs (scan ((total + v.len) % 2 ^ 64) vs) b (
          subst (λ t. Found (total + v.len) vs (scan t vs)) (omega (arith, le))
            (scan-Found (total + v.len) vs le)))

few :
    (n offset : ℕ)
    → ltb iov_max n || ltb int64_max offset ≡ false
    → (n ≤ iov_max) × (offset ≤ int64_max)
few n offset e = ground arith

behind :
    (offset t : ℕ)
    → offset ≤ int64_max
    → not (ltb (sub_wide int64_max offset) t) ≡ true
    → offset + t ≤ int64_max
behind offset t h e = ground arith

let_through :
    (vs : List Vector) (offset : ℕ) (r : Option ℕ)
    → length vs ≤ iov_max
    → offset ≤ int64_max
    → Found 0 vs r
    → fits_behind offset r ≡ true
    → InRange vs offset
let_through vs offset none n o f h = absurd (cc)
let_through vs offset (some t) n o (e, le, all) h =
    let room = behind offset t o h in (n, omega (arith, e, le), omega (arith, e, room), all)

accepted-InRange : (vs : List Vector) (offset : ℕ) → vectors vs offset ≡ true → InRange vs offset
unfolding vectors
accepted-InRange vs offset =
    if_cases (λ b. b ≡ true → InRange vs offset) (ltb iov_max (length vs) || ltb int64_max offset)
      false (fits_behind offset (scan 0 vs)) (λ _ h. absurd (cc))
      (λ e h.
        let (n, o) = few (length vs) offset e in
        let_through vs offset (scan 0 vs) n o (scan-Found 0 vs (omega arith)) h)

none_over :
    (n offset t : ℕ)
    → n ≤ iov_max
    → offset + t ≤ int64_max
    → ltb iov_max n || ltb int64_max offset ≡ false
none_over n offset t h k = ground arith

room_behind :
    (offset t : ℕ) → offset + t ≤ int64_max → not (ltb (sub_wide int64_max offset) t) ≡ true
room_behind offset t h = ground arith

InRange-accepted : (vs : List Vector) (offset : ℕ) → InRange vs offset → vectors vs offset ≡ true
unfolding vectors
InRange-accepted vs offset (n, le, room, all) =
    ap (λ b. if b then false else fits_behind offset (scan 0 vs))
      (none_over (length vs) offset (total_of vs) n room)
    ∙ ap (fits_behind offset) (scan-some 0 vs (omega (arith, le)) all ∙ ap some (omega arith))
    ∙ room_behind offset (total_of vs) room

-- `vectors` accepts exactly the transfers of at most IOV_MAX vectors, each with a buffer unless it is
-- empty, of at most INT_MAX bytes in all, that end at or before INT64_MAX: no sum of it wraps around.
pub vectors_iff : (vs : List Vector) (offset : ℕ) → (vectors vs offset ≡ true) ↔ InRange vs offset
vectors_iff vs offset = (accepted-InRange vs offset, InRange-accepted vs offset)
