-- ===== src/Buffer/Contents.antt =====
-- What the slot storage of channel.hpp and mailbox.hpp holds, as a list, and what its write and its
-- read do to that list.
use native.Mathlib.Nat.{add-zero, mod-add-mod, mod-eq_of_lt, mod-eq-sub-mod}
use native.Mathlib.Decide.{dec_lt}
use snowy.Prelude.{
  ℕ, suc, ◌+◌, ◌-◌, ◌%◌, ◌^◌, ◌≤◌, ◌<◌, ◌≡◌, refl, ap, sym, ◌∙◌, ◌≢◌, false, Option, none, some,
  List, [], ◌∷◌, ◌++◌, ◌⊎◌, arith, add_size, ◌==◌, get_or, set, length, length-append, length-set,
  length-replicate, get_or-set_self, get_or-set_ne, replicate, inl, inr,
}
use snowy.Buffer.{Buffer, allocate, capacity, is_full, put, take_front}

-- A vector's largest size: an optional takes at least two of the 2^63 bytes an allocation may have.
abbrev pub max_slots : ℕ
max_slots = 2 ^ 62

-- Fewer than a whole round of steps does not come back to the start.
round_ne : (n h k : ℕ) → h < n → suc k < n → (h + suc k) % n ≢ h
round_ne n h k hh hk = elim (dec_lt (h + suc k) n) [
  | yes p ↦ omega (arith, mod-eq_of_lt p)
  | no p ↦ omega (
    arith,
    mod-eq-sub-mod {n = h + suc k} {m = n} (omega arith),
    mod-eq_of_lt {n = h + suc k - n} {m = n} (omega arith),
  )
]

shift : (n h k : ℕ) → (h + suc k) % n ≡ ((h + 1) % n + k) % n
shift n h k = rw mod-add-mod (ap (λ t. t % n) (omega arith))

advance : (n i d : ℕ) → ((i + suc d) % n + 1) % n ≡ (i + suc (suc d)) % n
advance n i d = rw mod-add-mod (ap (λ t. t % n) (omega arith))

next_in : (n h : ℕ) → h < n → (h + 1) % n < n
next_in n h p = omega arith

module _ {T : Type 0} where
  -- From index `h` on, going round, the slots hold the values `xs`.
  abbrev pub Window : List (Option T) → ℕ → List T → Type 0
  Window slots h [] = Unit
  Window slots h (x ∷ xs) =
      (get_or slots h none ≡ some x) × Window slots ((h + 1) % length slots) xs

  -- The buffer holds `xs`, oldest first, and its indices are in range.
  pub record Holds (b : Buffer T) (xs : List T) : Type 0 where
    pub small : length b.slots ≤ max_slots
    pub counted : b.size ≡ length xs
    pub fits : b.size ≤ length b.slots
    pub head_in : b.head < length b.slots ⊎ length b.slots ≡ 0
    pub window : Window b.slots b.head xs

  -- A write just past the window extends it.
  Window-set :
      (slots : List (Option T)) (x : T) (xs : List T) (h i : ℕ)
      → h < length slots
      → length xs < length slots
      → i ≡ (h + length xs) % length slots
      → Window slots h xs
      → Window (set slots i (some x)) h (xs ++ (x ∷ []))
  Window-set slots x [] h i p q e w =
      let e' : i ≡ h = omega (arith, ap (λ k. k % length slots) (add-zero h), mod-eq_of_lt p) in
      (rw e' (get_or-set_self slots h (some x) none p), tt)
  Window-set slots x (y ∷ ys) h i p q e w = (
    get_or-set_ne slots i h (some x) none (rw e (round_ne (length slots) h (length ys) p q)) ∙ w.0,
    rw (length-set slots i (some x)) (
        Window-set slots x ys ((h + 1) % length slots) i (next_in (length slots) h p) (omega arith)
          (e ∙ shift (length slots) h (length ys)) w.1),
  )

  -- A write `d + 1` or more slots before the window leaves it.
  Window-set_off :
      (slots : List (Option T)) (v : Option T) (xs : List T) (h i d : ℕ)
      → i < length slots
      → h ≡ (i + suc d) % length slots
      → d + length xs < length slots
      → Window slots h xs
      → Window (set slots i v) h xs
  Window-set_off slots v [] h i d p e q w = tt
  Window-set_off slots v (y ∷ ys) h i d p e q w = (
    get_or-set_ne slots i h v none
          (λ same. round_ne (length slots) i d p (omega arith) (sym e ∙ sym same))
        ∙ w.0,
    rw (length-set slots i v) (
        Window-set_off slots v ys ((h + 1) % length slots) i (suc d) p
          (ap (λ t. (t + 1) % length slots) e ∙ advance (length slots) i d) (omega arith) w.1),
  )

  -- A new buffer is empty.
  pub allocate-Holds : (n : ℕ) → n ≤ max_slots → Holds (allocate n) []
  unfolding allocate
  allocate-Holds n h = record {
    small = omega (arith, length-replicate {0} {A = Option T} n none);
    counted = refl;
    fits = omega arith;
    head_in = range (replicate n none) (length-replicate n none);
    window = tt;
  }
    where
      range : (s : List (Option T)) → length s ≡ n → (0 < length s) ⊎ (length s ≡ 0)
      range [] e = inr refl
      range (x ∷ xs) e = inl (omega arith)

  -- A write into a buffer that is not full appends its value.
  pub put-Holds :
      (b : Buffer T) (xs : List T) (v : T)
      → is_full b ≡ false
      → Holds b xs
      → Holds (put b v) (xs ++ (v ∷ []))
  unfolding put
  put-Holds b xs v f h =
      let room : b.size < length b.slots = ground arith in
      let inside : b.head < length b.slots = omega arith in
      let at : add_size b.head b.size % length b.slots ≡ (b.head + length xs) % length b.slots =
        ap (λ k. k % length b.slots) (omega arith) in
      let n = length-set b.slots (add_size b.head b.size % length b.slots) (some v) in
      record {
        small = omega (arith, n);
        counted = omega (arith, length-append xs (v ∷ []));
        fits = omega (arith, n);
        head_in = inl (omega (arith, n));
        window = Window-set b.slots v xs b.head _ inside (omega arith) at h.window;
      }

  -- A read from a buffer that holds something splits off the oldest value.
  pub take_front-Holds :
      (b : Buffer T) (x : T) (xs : List T)
      → Holds b (x ∷ xs)
      → ((take_front b).0 ≡ some x) × Holds (take_front b).1 xs
  unfolding take_front
  take_front-Holds b x xs h =
      let inside : b.head < length b.slots = omega arith in
      let busy : b.size == 0 ≡ false = ground arith in
      let n = length-set b.slots b.head none in
      let at : add_size b.head 1 % length b.slots ≡ (b.head + 1) % length b.slots =
        ap (λ k. k % length b.slots) (omega arith) in
      rw (busy, take_front)
        (
          h.window.0,
          record {
            small = omega (arith, n);
            counted = omega arith;
            fits = omega (arith, n);
            head_in = inl (rw (n, at) (next_in (length b.slots) b.head inside));
            window = rw at (
                Window-set_off b.slots none xs ((b.head + 1) % length b.slots) b.head 0 inside refl
                  (omega arith) h.window.1);
          },
        )

  -- Reading an empty buffer changes nothing.
  pub take_front-empty : (b : Buffer T) → Holds b [] → take_front b ≡ (none, b)
  unfolding take_front
  take_front-empty b h = ground arith

  -- The capacity never changes.
  pub capacity-put : (b : Buffer T) (v : T) → capacity (put b v) ≡ capacity b
  unfolding put
  capacity-put b v = length-set b.slots _ (some v)

  pub capacity-take_front : (b : Buffer T) → capacity (take_front b).1 ≡ capacity b
  unfolding take_front
  capacity-take_front b = ground (arith, length-set b.slots b.head none)
