-- ===== src/Channel/Pop.antt =====
-- `pop` of channel.hpp against the list of the values in flight.
use snowy.Prelude.{
  ◌≡◌, refl, true, false, Option, none, some, List, [], ◌∷◌, ◌++◌, arith, if◌then◌else◌, sym, ◌∙◌,
  ap, append_assoc, length-append, subst, All, append-nil,
}
use snowy.Buffer.{Buffer, capacity, is_full, put, take_front}
use snowy.Buffer.Contents.{
  Holds, put-Holds, take_front-Holds, take_front-empty, capacity-put, capacity-take_front,
}
use snowy.Channel.{Node, Channel, pop, pop_from, refill, notify, moved}
use snowy.Channel.Invariant.{IsValid, pending, blocked, Queued-tail, received, received-append}
use snowy.Channel.Matching.{
  Taken, take-Taken, Rest-open, sender_value, Queued-put, blocked-receivers,
}

module _ {T : Type 0} where
  abbrev pub head? : List T → Option T
  head? [] = none
  head? (x ∷ xs) = some x

  abbrev pub tail : List T → List T
  tail [] = []
  tail (x ∷ xs) = xs

  -- What `pop` leaves: a valid channel in which the oldest value in flight is gone. No receiver has
  -- been told anything, and where there was no value only receivers wait.
  abbrev pub Popped : Channel T → List T → Option T × Channel T → Type 0
  Popped c xs (value, c') =
      (ys : List T) × IsValid c' ys
      × (value ≡ head? (pending c xs))
      × (pending c' ys ≡ tail (pending c xs))
      × (received c'.ready ≡ received c.ready)
      × (value ≡ none → All (λ (n : Node T). n.sending ≡ false) c'.waiters)

  pop_nothing :
      (c : Channel T) (us r : List (Node T))
      → Holds c.buffer []
      → Taken c true (none, us, r)
      → Popped c [] (none, record c { waiters = us; ready = r })
  pop_nothing c us r h (t, k, g) =
      let e = sym t.same_values ∙ blocked-receivers c.stopped us k in
      (
        [],
        record { holds = h; payload = t.payload; queued = t.queued; drained = t.drained },
        rw e,
        rw e (blocked-receivers c.stopped us k),
        g,
        λ _. k,
      )

  pop_buffered :
      (c : Channel T) (us r : List (Node T)) (x : T) (xs : List T) (b : Buffer T)
      → Holds c.buffer (x ∷ xs)
      → Holds b xs
      → Taken c true (none, us, r)
      → Popped c (x ∷ xs) (some x, record c { buffer = b; waiters = us; ready = r })
  pop_buffered c [] r x xs b h d (t, k, g) = (
    xs,
    record { holds = d; payload = tt; queued = tt; drained = t.drained },
    refl,
    ap (λ vs. xs ++ vs) t.same_values,
    g,
    λ _. tt,
  )
  pop_buffered c (w ∷ us) r x xs b h d (t, k, g) =
      let e : c.buffer.size ≡ 0 =
        subst (λ f. c.buffer.size ≡ (if f then capacity c.buffer else 0)) k.0 t.queued.1 in
      absurd (omega (arith, h.counted))

  -- A sender that is told that it is done carries nothing.
  received-sender :
      (w : Node T) (r : List (Node T))
      → w.sending ≡ true
      → received (notify (moved w) r) ≡ received r
  received-sender w r s =
      ground (
        arith,
        received-append r (record (moved w) { active = false } ∷ []),
        append-nil (received r),
      )

  pop_handed :
      (c : Channel T) (w : Node T) (us r : List (Node T))
      → Holds c.buffer []
      → Taken c true (some w, us, r)
      → Popped c [] (w.value, record c { waiters = us; ready = notify (moved w) r })
  pop_handed c w us r h (t, s, l, g) =
      let (v, e, f) = sender_value c w us t s l in
      (
        [],
        record {
          holds = h;
          payload = t.payload.1;
          queued = Queued-tail c.buffer w us t.queued;
          drained = λ d. cc (Rest-open c w us t);
        },
        rw (e, ← f),
        rw (← f),
        received-sender w r s ∙ g,
        λ n. cc,
      )

  pop_refilled :
      (c : Channel T) (w : Node T) (us r : List (Node T)) (x : T) (xs : List T) (b : Buffer T)
      → Holds c.buffer (x ∷ xs)
      → Holds b xs
      → capacity b ≡ capacity c.buffer
      → Taken c true (some w, us, r)
      → Popped c
          (x ∷ xs)
          (some x, record c { buffer = refill b w.value; waiters = us; ready = notify (moved w) r })
  pop_refilled c w us r x xs b h d n (t, s, l, g) =
      let (v, e, f) = sender_value c w us t s l in
      let room : is_full b ≡ false = ground (arith, h.counted, h.fits, d.counted, n) in
      let filled = put-Holds b xs v room d in
      let size : (put b v).size ≡ c.buffer.size =
        omega (arith, filled.counted, h.counted, length-append xs (v ∷ [])) in
      rw e (
        xs ++ (v ∷ []),
        record {
          holds = filled;
          payload = t.payload.1;
          queued =
              Queued-put c.buffer (put b v) us size (capacity-put b v ∙ n)
                (Queued-tail c.buffer w us t.queued);
          drained = λ d. cc (Rest-open c w us t);
        },
        refl,
        append_assoc xs (v ∷ []) (blocked c.stopped us) ∙ ap (λ vs. xs ++ vs) f,
        received-sender w r s ∙ g,
        λ n. cc,
      )

  -- What reading a buffer that holds `xs` gives.
  abbrev ReadOf : Buffer T → List T → Option T × Buffer T → Type 0
  ReadOf b [] r = (r.0 ≡ none) × (r.1 ≡ b)
  ReadOf b (x ∷ xs) r = (r.0 ≡ some x) × Holds r.1 xs × (capacity r.1 ≡ capacity b)

  take_front-ReadOf : (b : Buffer T) (xs : List T) → Holds b xs → ReadOf b xs (take_front b)
  take_front-ReadOf b [] h =
      (ap (λ r. r.0) (take_front-empty b h), ap (λ r. r.1) (take_front-empty b h))
  take_front-ReadOf b (x ∷ xs) h =
      let (e, g) = take_front-Holds b x xs h in (e, g, capacity-take_front b)

  pop_from-Popped :
      (c : Channel T) (xs : List T) (value : Option T) (b : Buffer T)
      (o : Option (Node T) × List (Node T) × List (Node T))
      → Holds c.buffer xs
      → ReadOf c.buffer xs (value, b)
      → Taken c true o
      → Popped c xs (pop_from (record c { buffer = b; waiters = o.1; ready = o.2 }) value o.0)
  pop_from-Popped c [] value b (none, us, r) h (e, f) k = rw (e, f) (pop_nothing c us r h k)
  pop_from-Popped c [] value b (some w, us, r) h (e, f) k = rw (e, f) (pop_handed c w us r h k)
  pop_from-Popped c (x ∷ xs) value b (none, us, r) h (e, g, n) k =
      rw e (pop_buffered c us r x xs b h g k)
  pop_from-Popped c (x ∷ xs) value b (some w, us, r) h (e, g, n) k =
      rw e (pop_refilled c w us r x xs b h g n k)

  -- Receiving from a valid channel takes the oldest value in flight, from the buffer or from a
  -- blocked sender, keeps the channel valid, and leaves the other values in flight in their
  -- order; with none, it gives none.
  pub pop-Popped : (c : Channel T) (xs : List T) → IsValid c xs → Popped c xs (pop c)
  unfolding pop
  pop-Popped c xs v =
      pop_from-Popped c xs _ _ _ v.holds (take_front-ReadOf c.buffer xs v.holds)
        (take-Taken c true xs v)
