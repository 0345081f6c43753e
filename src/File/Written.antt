-- ===== src/File/Written.antt =====
-- What `write_all` of file.cpp leaves in the file.
use snowy.Prelude.{
  ℕ, zero, suc, ◌+◌, ◌-◌, ◌%◌, ◌^◌, ◌≤◌, ◌<◌, ◌≡◌, refl, sym, ap, ◌∙◌, subst, Bool, true, false,
  ◌||◌, Option, none, some, List, [], ◌∷◌, ◌++◌, ltb, ◌==◌, if◌then◌else◌, if_cases, length, take,
  drop, take-append-drop, length-drop, length-take, arith, append_assoc,
}
use snowy.File.{
  Error, no_progress, unfinished, Reply, moved, failed, int64_max, Contents, write_bytes, length_of,
  Outcome, wrote, transfer, write_loop, write_all,
}

-- The system call takes at most what it is given.
abbrev pub IsHonest : (ℕ → List ℕ → Reply) → Type 0
IsHonest call = (offset n : ℕ) (bytes : List ℕ) → call offset bytes ≡ moved n → n ≤ length bytes

abbrev pub is_unfinished : Option Error → Bool
is_unfinished (some unfinished) = true
is_unfinished _ = false

-- Some first part of the buffer stands in the file from the offset on, and nothing else is changed;
-- without an error, it is the whole buffer.
abbrev pub Prefix : Contents → List ℕ → ℕ → Option Error × Contents → Type 0
Prefix c buffer offset r =
    (front : List ℕ) × (back : List ℕ) × (front ++ back ≡ buffer)
    × (r.1 ≡ write_bytes c offset front)
    × (r.0 ≡ none → back ≡ [])
    × (is_unfinished r.0 ≡ false)

write_bytes-append :
    (c : Contents) (offset : ℕ) (xs ys : List ℕ)
    → write_bytes (write_bytes c offset xs) (offset + length xs) ys
      ≡ write_bytes c offset (xs ++ ys)
unfolding write_bytes
write_bytes-append c offset [] ys = ap (λ o. write_bytes c o ys) (omega arith)
write_bytes-append c offset (x ∷ xs) ys =
    ap (λ o. write_bytes (write_bytes (λ p. if p == offset then x else c p) (offset + 1) xs) o ys)
      (omega arith)
    ∙ write_bytes-append (λ p. if p == offset then x else c p) (offset + 1) xs ys

in_range :
    (offset size : ℕ)
    → ltb int64_max offset || ltb (int64_max - offset) size ≡ false
    → offset + 0 ≤ int64_max
in_range offset size e = ground arith

fits_in :
    (offset size : ℕ)
    → ltb int64_max offset || ltb (int64_max - offset) size ≡ false
    → offset + size ≤ int64_max
fits_in offset size e = ground arith

module _ (call : ℕ → List ℕ → Reply) (canceled : ℕ → Bool) (honest : IsHonest call) where
  -- What one transfer of a buffer that is not empty does.
  abbrev Moved : Contents → List ℕ → ℕ → Outcome → Type 0
  Moved c buffer offset o =
      (o.contents ≡ write_bytes c offset (take o.moved_bytes buffer))
      × (o.moved_bytes ≤ length buffer)
      × (o.error ≡ none → offset + o.moved_bytes ≤ int64_max)
      × (is_unfinished o.error ≡ false)

  wrote-Moved :
      (c : Contents) (buffer : List ℕ) (offset : ℕ) (r : Reply)
      → ((n : ℕ) → r ≡ moved n → n ≤ length_of buffer)
      → offset + length_of buffer ≤ int64_max
      → Moved c buffer offset (wrote buffer offset c r)
  unfolding write_bytes
  wrote-Moved c buffer offset (failed e) h le = (refl, omega arith, λ k. absurd (cc), refl)
  wrote-Moved c buffer offset (moved n) h le =
      let small = h n refl in (refl, omega (arith, small), λ _. omega (arith, small, le), refl)

  transfer-Moved :
      (c : Contents) (buffer : List ℕ) (offset : ℕ)
      → Moved c buffer offset (transfer call canceled c buffer offset)
  unfolding transfer write_bytes
  transfer-Moved c buffer offset =
      if_cases (Moved c buffer offset) (canceled offset) _ _
        (λ _. (refl, omega arith, λ k. absurd (cc), refl))
        (λ _.
          if_cases (Moved c buffer offset)
            (ltb int64_max offset || ltb (int64_max - offset) (length_of buffer)) _ _
            (λ _. (refl, omega arith, λ k. absurd (cc), refl))
            (λ fits.
              if_cases (Moved c buffer offset) (length_of buffer == 0) _ _
                (λ _. (refl, omega arith, λ k. in_range offset (length_of buffer) fits, refl))
                (λ _.
                  wrote-Moved c buffer offset (call offset (take (length_of buffer) buffer))
                    (λ n e. omega (
                      arith,
                      honest offset n (take (length_of buffer) buffer) e,
                      length-take (length_of buffer) buffer (omega arith),
                    ))
                    (fits_in offset (length_of buffer) fits))))

  -- A round that moved something, and then the rest.
  went_on :
      (c : Contents) (buffer : List ℕ) (offset : ℕ) (o : Outcome) (r : Option Error × Contents)
      → o.contents ≡ write_bytes c offset (take o.moved_bytes buffer)
      → o.moved_bytes ≤ length buffer
      → Prefix o.contents (drop o.moved_bytes buffer) (offset + o.moved_bytes) r
      → Prefix c buffer offset r
  went_on c buffer offset o r ec le (front, back, e, w, done, fin) = (
    take o.moved_bytes buffer ++ front,
    back,
    append_assoc (take o.moved_bytes buffer) front back
        ∙ ap (λ xs. take o.moved_bytes buffer ++ xs) e
        ∙ take-append-drop o.moved_bytes buffer,
    w
        ∙ ap (λ d. write_bytes d (offset + o.moved_bytes) front) ec
        ∙ ap
            (λ n. write_bytes (write_bytes c offset (take o.moved_bytes buffer)) (offset + n) front)
            (sym (length-take o.moved_bytes buffer le))
        ∙ write_bytes-append c offset (take o.moved_bytes buffer) front,
    done,
    fin,
  )

  -- A round that was the last.
  stopped_at :
      (c : Contents) (buffer : List ℕ) (offset : ℕ) (o : Outcome) (e : Error)
      → o.contents ≡ write_bytes c offset (take o.moved_bytes buffer)
      → is_unfinished (some e) ≡ false
      → Prefix c buffer offset (some e, o.contents)
  stopped_at c buffer offset o e ec fin = (
    take o.moved_bytes buffer,
    drop o.moved_bytes buffer,
    take-append-drop o.moved_bytes buffer,
    ec,
    λ h. absurd (cc),
    fin,
  )

  one_round :
      (c : Contents) (buffer : List ℕ) (offset : ℕ) (o : Outcome) (err : Option Error)
      (rest : Option Error × Contents)
      → o.error ≡ err
      → Moved c buffer offset o
      → (0 < o.moved_bytes → err ≡ none → Prefix c buffer offset rest)
      → Prefix c buffer offset (elim err [
        | some e ↦ (some e, o.contents)
        | none ↦ (if o.moved_bytes == 0 then (some no_progress, o.contents) else rest)
      ])
  one_round c buffer offset o (some e) rest ee (ec, le, range, fin) h =
      stopped_at c buffer offset o e ec (sym (ap is_unfinished ee) ∙ fin)
  one_round c buffer offset o none rest ee (ec, le, range, fin) h =
      if_cases (Prefix c buffer offset) (o.moved_bytes == 0) (some no_progress, o.contents) rest
        (λ _. stopped_at c buffer offset o no_progress ec refl) (λ z. h (ground arith) refl)

  write_loop-Prefix :
      (fuel : ℕ) (c : Contents) (buffer : List ℕ) (offset : ℕ)
      → length buffer ≤ fuel
      → Prefix c buffer offset (write_loop call canceled fuel c buffer offset)
  unfolding write_loop write_bytes
  write_loop-Prefix fuel c [] offset h = ([], [], refl, refl, λ _. refl, refl)
  write_loop-Prefix zero c (b ∷ bs) offset h = absurd (omega arith)
  write_loop-Prefix (suc fuel) c (b ∷ bs) offset h =
      let buffer = b ∷ bs in
      let o = transfer call canceled c buffer offset in
      let (ec, le, range, fin) = transfer-Moved c buffer offset in
      let rest =
        write_loop call canceled fuel o.contents (drop o.moved_bytes buffer)
          ((offset + o.moved_bytes) % 2 ^ 64) in
      one_round c buffer offset o o.error rest refl (ec, le, range, fin)
        (λ pos none_here. went_on c buffer offset o rest ec le (
          subst (λ k. Prefix o.contents (drop o.moved_bytes buffer) k rest)
            (omega (arith, range none_here))
            (write_loop-Prefix fuel o.contents (drop o.moved_bytes buffer)
              ((offset + o.moved_bytes) % 2 ^ 64)
              (omega (arith, length-drop o.moved_bytes buffer, pos, h)))))

  -- When the system call takes at most what it is given, `write_all` ends, and however it ends, a
  -- first part of the buffer stands in the file from the offset on and no other byte is changed;
  -- when it ends without an error, that part is the whole buffer.
  pub write_all-Prefix :
      (c : Contents) (buffer : List ℕ) (offset : ℕ)
      → Prefix c buffer offset (write_all call canceled c buffer offset)
  unfolding write_all
  write_all-Prefix c buffer offset = write_loop-Prefix (length buffer) c buffer offset (omega arith)
