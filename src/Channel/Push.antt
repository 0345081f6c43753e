-- ===== src/Channel/Push.antt =====
-- `push` of channel.hpp against the list of the values in flight.
use snowy.Prelude.{
  ◌≡◌, refl, Bool, true, false, Option, none, some, List, [], ◌∷◌, ◌++◌, arith, if◌then◌else◌, sym,
  ◌∙◌, ap, append-nil, ◌⊎◌, inl, inr, Bool-cases, subst, All, length,
}
use snowy.Buffer.{capacity, is_full, put}
use snowy.Buffer.Contents.{Holds, put-Holds}
use snowy.Channel.{Node, Channel, push, push_to}
use snowy.Channel.Invariant.{IsValid, pending, blocked, received, Queued-tail}
use snowy.Channel.Matching.{Taken, Rest, take-Taken, Rest-open, blocked-receivers}

module _ {T : Type 0} where
  -- The value went straight to a receiver, the last on the ready queue, and none was in flight.
  pub record Handed (c : Channel T) (xs : List T) (v : T) (c' : Channel T) (ys : List T)
      : Type 0 where
    pub receiver : Node T
    pub before : List (Node T)
    pub queue : c'.ready ≡ before ++ (receiver ∷ [])
    pub receives : receiver.sending ≡ false
    pub value : receiver.value ≡ some v
    pub told_before : received before ≡ received c.ready
    pub nothing_before : pending c xs ≡ []
    pub nothing_after : pending c' ys ≡ []

  -- What `push` leaves: it hands over, or appends to the values in flight, or refuses when full.
  abbrev pub Pushed : Channel T → List T → T → Bool × Channel T → Type 0
  Pushed c xs v (done, c') =
      (ys : List T) × IsValid c' ys
      × ((done ≡ true) × Handed c xs v c' ys
          ⊎ (done ≡ true)
            × (is_full c.buffer ≡ false)
            × (pending c' ys ≡ pending c xs ++ (v ∷ []))
            × (received c'.ready ≡ received c.ready)
          ⊎ (done ≡ false)
            × (is_full c'.buffer ≡ true)
            × (c'.buffer ≡ c.buffer)
            × (pending c' ys ≡ pending c xs)
            × (received c'.ready ≡ received c.ready)
            × All (λ (n : Node T). n.sending ≡ true) c'.waiters)

  -- Waiting receivers mean that nothing is in flight.
  receivers_idle :
      (c : Channel T) (w : Node T) (us r : List (Node T)) (xs : List T)
      → Holds c.buffer xs
      → Taken c false (some w, us, r)
      → (xs ≡ []) × (blocked c.stopped us ≡ [])
  receivers_idle c w us r xs h (t, s, l, g) = (
    empty xs h.counted,
    blocked-receivers c.stopped us
        (subst (λ d. All (λ (n : Node T). n.sending ≡ d) us) s t.queued.0),
  )
    where
      size : c.buffer.size ≡ 0
      size = subst (λ d. c.buffer.size ≡ (if d then capacity c.buffer else 0)) s t.queued.1

      empty : (zs : List T) → c.buffer.size ≡ length zs → zs ≡ []
      empty [] e = refl
      empty (z ∷ zs) e = absurd (omega (arith, size))

  push_handed :
      (c : Channel T) (w : Node T) (us r : List (Node T)) (xs : List T) (v : T)
      → Holds c.buffer xs
      → Taken c false (some w, us, r)
      → Pushed c xs v (push_to (record c { waiters = us; ready = r }) v (some w))
  push_handed c w us r xs v h (t, s, l, g) =
      let (e, f) = receivers_idle c w us r xs h (t, s, l, g) in
      let active : w.active ≡ true = ground arith in
      let idle : blocked c.stopped c.waiters ≡ [] =
        sym t.same_values
        ∙ blocked-receivers c.stopped (w ∷ us)
            (s, subst (λ d. All (λ (n : Node T). n.sending ≡ d) us) s t.queued.0) in
      (
        xs,
        record {
          holds = h;
          payload = t.payload.1;
          queued = Queued-tail c.buffer w us t.queued;
          drained = λ d. cc (Rest-open c w us t);
        },
        inl (
          refl,
          record {
            receiver = record w { value = some v; active = false };
            before = r;
            queue = rw active;
            receives = s;
            value = refl;
            told_before = g;
            nothing_before = rw (e, idle);
            nothing_after = rw (e, f);
          },
        ),
      )

  push_buffered :
      (c : Channel T) (us r : List (Node T)) (xs : List T) (v : T)
      → Holds c.buffer xs
      → Taken c false (none, us, r)
      → Pushed c xs v (push_to (record c { waiters = us; ready = r }) v none)
  push_buffered c us r xs v h (t, k, g) = elim (Bool-cases (is_full c.buffer)) [
    | inl full ↦ subst outcome (sym full) (
      xs,
      record { holds = h; payload = t.payload; queued = t.queued; drained = t.drained },
      inr (inr (refl, full, refl, ap (λ vs. xs ++ vs) t.same_values, g, k)),
    )
    | inr room ↦ subst outcome (sym room) (room_for us t k room)
  ]
    where
      outcome : Bool → Type 0
      outcome b = Pushed c xs v (
          if b
          then (false, record c { waiters = us; ready = r })
          else (true, record c { buffer = put c.buffer v; waiters = us; ready = r }))

      room_for :
          (us : List (Node T))
          → Rest c us
          → All (λ (n : Node T). n.sending ≡ true) us
          → is_full c.buffer ≡ false
          → Pushed c xs v (true, record c { buffer = put c.buffer v; waiters = us; ready = r })
      room_for [] t k room = (
        xs ++ (v ∷ []),
        record {
          holds = put-Holds c.buffer xs v room h;
          payload = tt;
          queued = tt;
          drained = t.drained;
        },
        inr (inl (refl, room, rw (← t.same_values, append-nil, append-nil), g)),
      )
      room_for (w ∷ us) t k room =
          let full : c.buffer.size ≡ capacity c.buffer =
            subst (λ d. c.buffer.size ≡ (if d then capacity c.buffer else 0)) k.0 t.queued.1 in
          absurd (ground arith)

  push_to-Pushed :
      (c : Channel T) (xs : List T) (v : T) (o : Option (Node T) × List (Node T) × List (Node T))
      → Holds c.buffer xs
      → Taken c false o
      → Pushed c xs v (push_to (record c { waiters = o.1; ready = o.2 }) v o.0)
  push_to-Pushed c xs v (none, us, r) h k = push_buffered c us r xs v h k
  push_to-Pushed c xs v (some w, us, r) h k = push_handed c w us r xs v h k

  -- Sending on a valid channel keeps it valid and does one of three things: with a receiver waiting
  -- it completes that receiver with the value, no other value being in flight before or after; with
  -- room it appends the value to those in flight; else it refuses, the buffer being full, and the
  -- values in flight stay as they were.
  pub push-Pushed : (c : Channel T) (xs : List T) (v : T) → IsValid c xs → Pushed c xs v (push c v)
  unfolding push
  push-Pushed c xs v i = push_to-Pushed c xs v _ i.holds (take-Taken c false xs i)
