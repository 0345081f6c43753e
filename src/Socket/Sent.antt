-- ===== src/Socket/Sent.antt =====
-- What `write_all` of socket.cpp sends.
use snowy.Prelude.{
  ℕ, zero, suc, ◌≤◌, ◌<◌, ◌≡◌, refl, sym, ap, ◌∙◌, min, Bool, true, false, Option, none, some, List,
  [], ◌∷◌, ◌++◌, ◌==◌, if◌then◌else◌, if_cases, length, take, drop, take-append-drop, length-drop,
  length-take, arith, append_assoc, append-nil,
}
use snowy.File.{Reply, moved, failed, int_max}
use snowy.Socket.{Error, broken_pipe, unfinished, Outcome, wrote, write, write_loop, write_all}

-- The system call takes at most what it is given.
abbrev pub IsHonest : (List ℕ → List ℕ → Reply) → Type 0
IsHonest call = (sent bytes : List ℕ) (n : ℕ) → call sent bytes ≡ moved n → n ≤ length bytes

abbrev pub is_unfinished : Option Error → Bool
is_unfinished (some unfinished) = true
is_unfinished _ = false

-- A first part of the buffer has been sent, in order, and without an error all of it.
abbrev pub SentPart : List ℕ → List ℕ → Option Error × List ℕ → Type 0
SentPart sent buffer r =
    (front : List ℕ) × (back : List ℕ) × (front ++ back ≡ buffer)
    × (r.1 ≡ sent ++ front)
    × (r.0 ≡ none → back ≡ [])
    × (is_unfinished r.0 ≡ false)

module _ (call : List ℕ → List ℕ → Reply) (canceled : ℕ → Bool) (honest : IsHonest call) where
  abbrev Moved : List ℕ → List ℕ → Outcome → Type 0
  Moved sent buffer o =
      (o.sent ≡ sent ++ take o.moved_bytes buffer)
      × (o.moved_bytes ≤ length buffer)
      × (is_unfinished o.error ≡ false)

  wrote-Moved :
      (sent buffer : List ℕ) (r : Reply)
      → ((n : ℕ) → r ≡ moved n → n ≤ length buffer)
      → Moved sent buffer (wrote buffer sent r)
  wrote-Moved sent buffer (failed e) h = (sym (append-nil sent), omega arith, refl)
  wrote-Moved sent buffer (moved n) h = (refl, h n refl, refl)

  write-Moved : (sent buffer : List ℕ) → Moved sent buffer (write call canceled sent buffer)
  unfolding write
  write-Moved sent buffer =
      let asked = min (length buffer) int_max in
      if_cases (Moved sent buffer) (canceled (length sent)) _ _
        (λ _. (sym (append-nil sent), omega arith, refl))
        (λ _. wrote-Moved sent buffer (call sent (take asked buffer)) (λ n e.
          omega
            (arith, honest sent (take asked buffer) n e, length-take asked buffer (omega arith))))

  went_on :
      (sent buffer : List ℕ) (o : Outcome) (r : Option Error × List ℕ)
      → o.sent ≡ sent ++ take o.moved_bytes buffer
      → SentPart o.sent (drop o.moved_bytes buffer) r
      → SentPart sent buffer r
  went_on sent buffer o r es (front, back, e, w, done, fin) = (
    take o.moved_bytes buffer ++ front,
    back,
    append_assoc (take o.moved_bytes buffer) front back
        ∙ ap (λ xs. take o.moved_bytes buffer ++ xs) e
        ∙ take-append-drop o.moved_bytes buffer,
    w ∙ ap (λ xs. xs ++ front) es ∙ append_assoc sent (take o.moved_bytes buffer) front,
    done,
    fin,
  )

  stopped_at :
      (sent buffer : List ℕ) (o : Outcome) (e : Error)
      → o.sent ≡ sent ++ take o.moved_bytes buffer
      → is_unfinished (some e) ≡ false
      → SentPart sent buffer (some e, o.sent)
  stopped_at sent buffer o e es fin = (
    take o.moved_bytes buffer,
    drop o.moved_bytes buffer,
    take-append-drop o.moved_bytes buffer,
    es,
    λ h. absurd (cc),
    fin,
  )

  one_round :
      (sent buffer : List ℕ) (o : Outcome) (err : Option Error) (rest : Option Error × List ℕ)
      → o.error ≡ err
      → Moved sent buffer o
      → (0 < o.moved_bytes → SentPart sent buffer rest)
      → SentPart sent buffer (elim err [
        | some e ↦ (some e, o.sent)
        | none ↦ (if o.moved_bytes == 0 then (some broken_pipe, o.sent) else rest)
      ])
  one_round sent buffer o (some e) rest ee (es, le, fin) h =
      stopped_at sent buffer o e es (sym (ap is_unfinished ee) ∙ fin)
  one_round sent buffer o none rest ee (es, le, fin) h =
      if_cases (SentPart sent buffer) (o.moved_bytes == 0) (some broken_pipe, o.sent) rest
        (λ _. stopped_at sent buffer o broken_pipe es refl) (λ z. h (ground arith))

  write_loop-SentPart :
      (fuel : ℕ) (sent buffer : List ℕ)
      → length buffer ≤ fuel
      → SentPart sent buffer (write_loop call canceled fuel sent buffer)
  unfolding write_loop
  write_loop-SentPart fuel sent [] h = ([], [], refl, sym (append-nil sent), λ _. refl, refl)
  write_loop-SentPart zero sent (b ∷ bs) h = absurd (omega arith)
  write_loop-SentPart (suc fuel) sent (b ∷ bs) h =
      let buffer = b ∷ bs in
      let o = write call canceled sent buffer in
      let m = write-Moved sent buffer in
      let rest = write_loop call canceled fuel o.sent (drop o.moved_bytes buffer) in
      one_round sent buffer o o.error rest refl m (λ pos. went_on sent buffer o rest m.0 (
        write_loop-SentPart fuel o.sent (drop o.moved_bytes buffer)
          (omega (arith, length-drop o.moved_bytes buffer, pos, h))))

  -- When the system call takes at most what it is given, `write_all` ends, and however it ends, it has
  -- sent a first part of the buffer, in order and nothing twice; without an error, the whole buffer.
  pub write_all-SentPart :
      (sent buffer : List ℕ) → SentPart sent buffer (write_all call canceled sent buffer)
  unfolding write_all
  write_all-SentPart sent buffer = write_loop-SentPart (length buffer) sent buffer (omega arith)
