-- ===== src/Mailbox/Refine.antt =====
-- The mailbox of mailbox.hpp does what the channel of channel.hpp does: its operations are those of
-- a channel whose waiters are the mailbox's, a waiter being canceled there when it or its loop is.
use mathlib.Core.List.{map-append}
use snowy.Prelude.{
  ℕ, ◌≡◌, refl, Bool, true, false, Option, none, some, List, [], ◌∷◌, map, arith, if◌then◌else◌,
  if_related, subst, sym,
}
use snowy.Errc.{operation_canceled}
use snowy.Buffer.{Buffer}
use snowy.WaitQueue.{Waiter, fresh, front, is_due, deliver, enqueue, canceled_now}
use snowy.Mailbox.{
  Mailbox, Parcel, push, pop, push_to, pop_from, first_of_kind, send, recv, try_send, try_recv,
  link, with_value,
}
use snowy.Channel
use snowy.Channel.{Channel, Node}

module _ {T : Type 0} (stopped : ℕ → Bool) where
  -- A linked waiter has no error yet: it gets one with its delivery.
  abbrev pub view_node : Waiter (Parcel T) → Node T
  view_node w = record {
    id = w.id;
    sending = w.payload.sending;
    value = w.payload.value;
    active = true;
    canceled = is_due stopped w;
    error = none;
  }

  -- A delivered waiter is one that the channel has made ready.
  abbrev pub sent_node : Waiter (Parcel T) → Node T
  sent_node w = record (view_node w) { active = false; error = w.error }

  abbrev pub view : Mailbox T → Channel T
  view m = record {
    buffer = m.buffer;
    closed = m.closed;
    waiters = map view_node m.waiters;
    ready = map sent_node m.sent;
    stopped = false;
  }

  abbrev view_taken :
      Option (Waiter (Parcel T)) × List (Waiter (Parcel T))
      → List (Waiter (Parcel T))
      → Option (Node T) × List (Node T) × List (Node T)
  view_taken (none, us) s = (none, map view_node us, map sent_node s)
  view_taken (some w, us) s = (some (view_node w), map view_node us, map sent_node s)

  take-front :
      (wanted : Bool) (ws s : List (Waiter (Parcel T)))
      → Channel.take false wanted (map view_node ws) (map sent_node s)
        ≡ view_taken (first_of_kind wanted (front stopped ws s).0) (front stopped ws s).1
  unfolding Channel.take front
  take-front wanted [] s = refl
  take-front wanted (w ∷ ws) s = ground (
    arith,
    take-front wanted ws (deliver (some operation_canceled) w s),
    map-append sent_node s (record w { error = some operation_canceled } ∷ []),
  )

  view-push_to :
      (m : Mailbox T) (v : T) (o : Option (Waiter (Parcel T)) × List (Waiter (Parcel T)))
      (s : List (Waiter (Parcel T)))
      → let (w, us, r) = view_taken o s in
        let m' = push_to (record m { waiters = o.1; sent = s }) v o.0 in
        Channel.push_to (record (view m) { waiters = us; ready = r }) v w ≡ (m'.0, view m'.1)
  view-push_to m v (none, us) s = ground arith
  view-push_to m v (some w, us) s =
      ground (arith, map-append sent_node s (record (with_value (some v) w) { error = none } ∷ []))

  -- `push` on a mailbox is `push` on its view.
  pub view-push :
      (m : Mailbox T) (v : T)
      → Channel.push (view m) v ≡ ((push stopped m v).0, view (push stopped m v).1)
  unfolding Channel.push push
  view-push m v = rw (take-front false m.waiters m.sent) (view-push_to m v _ _)

  view-pop_from :
      (m : Mailbox T) (b : Buffer T) (value : Option T)
      (o : Option (Waiter (Parcel T)) × List (Waiter (Parcel T))) (s : List (Waiter (Parcel T)))
      → let (w, us, r) = view_taken o s in
        let m' = pop_from (record m { buffer = b; waiters = o.1; sent = s }) value o.0 in
        Channel.pop_from (record (view m) { buffer = b; waiters = us; ready = r }) value w
        ≡ (m'.0, view m'.1)
  view-pop_from m b value (none, us) s = refl
  view-pop_from m b none (some w, us) s =
      ground (arith, map-append sent_node s (record (with_value none w) { error = none } ∷ []))
  view-pop_from m b (some v) (some w, us) s =
      ground (arith, map-append sent_node s (record (with_value none w) { error = none } ∷ []))

  -- `pop` on a mailbox is `pop` on its view.
  pub view-pop :
      (m : Mailbox T) → Channel.pop (view m) ≡ ((pop stopped m).0, view (pop stopped m).1)
  unfolding Channel.pop pop
  view-pop m = rw (take-front true m.waiters m.sent) (view-pop_from m _ _ _ _)

  -- An awaiter's answer, seen as the channel's: the node matters where it comes back, for its value
  -- and error, or where it is parked.
  abbrev pub view_answer : Bool × Waiter (Parcel T) × Mailbox T → Bool × Node T × Channel T
  view_answer (false, w, m) = (false, record (sent_node w) { canceled = false }, view m)
  view_answer (true, w, m) = (true, view_node w, view m)

  view-link :
      (m : Mailbox T) (second : Bool) (w : Waiter (Parcel T))
      → w.canceled ≡ false
      → w.interruptible ≡ true
      → w.error ≡ none
      → Channel.link
          (view m)
          (canceled_now stopped w.owner second)
          (record (view_node w) { active = false; canceled = false })
        ≡ view_answer (link stopped m second w)
  unfolding enqueue
  view-link m second w c i e = ground (arith, map-append view_node m.waiters (w ∷ []))

  abbrev sender : ℕ → ℕ → T → Waiter (Parcel T)
  sender id owner v = fresh id owner (record { sending = true; value = some v })

  abbrev receiver : ℕ → ℕ → Waiter (Parcel T)
  receiver id owner = fresh id owner (record { sending = false; value = none })

  -- The two answers agree.
  abbrev Agrees : Bool × Node T × Channel T → Bool × Waiter (Parcel T) × Mailbox T → Type 0
  Agrees a b = a ≡ view_answer b

  view_send_push :
      (m : Mailbox T) (id owner : ℕ) (v : T) (second : Bool) (o : Bool × Mailbox T)
      → Agrees
          (if o.0
            then (false, Channel.moved (Channel.send_node id v), view o.1)
            else Channel.link
                (view o.1)
                (canceled_now stopped owner second)
                (Channel.send_node id v))
          (if o.0
            then (false, with_value none (sender id owner v), o.1)
            else link stopped o.1 second (sender id owner v))
  view_send_push m id owner v second (true, m') = refl
  view_send_push m id owner v second (false, m') =
      view-link m' second (sender id owner v) refl refl refl

  -- So is an awaiting send, both looks at the token seeing the stop of its loop as well.
  pub view-send :
      (m : Mailbox T) (id owner : ℕ) (v : T) (first second : Bool)
      → Channel.send
          (view m)
          id
          v
          (canceled_now stopped owner first)
          (canceled_now stopped owner second)
        ≡ view_answer (send stopped m id owner v first second)
  unfolding Channel.send send
  view-send m id owner v first second = rw (view-push m v) (
      if_related Agrees (canceled_now stopped owner first) _ _ _ _ (λ _. refl)
        λ _.
          if_related Agrees m.closed _ _ _ _ (λ _. refl)
            λ _. view_send_push m id owner v second (push stopped m v))

  -- What a receive on the channel answers once `pop` has given `p`.
  abbrev popped_answer : ℕ → Bool → Bool → Option T × Channel T → Bool × Node T × Channel T
  popped_answer id closed canceled p =
      let n : Node T = Channel.recv_node id in
      let waits = if closed then (false, n, p.1) else Channel.link p.1 canceled n in
      elim p.0 [ some v ↦ (false, record n { value = some v }, p.1) | none ↦ waits ]

  view_recv_pop :
      (m : Mailbox T) (id owner : ℕ) (closed second : Bool) (o : Option T × Mailbox T)
      → let w = receiver id owner in
        let waits = if closed then (false, w, o.1) else link stopped o.1 second w in
        let b : Bool × Waiter (Parcel T) × Mailbox T = elim o.0 [
          | some v ↦ (false, with_value (some v) w, o.1)
          | none ↦ waits
        ] in
        Agrees (popped_answer id closed (canceled_now stopped owner second) (o.0, view o.1)) b
  view_recv_pop m id owner closed second (some v, m') = refl
  view_recv_pop m id owner true second (none, m') = refl
  view_recv_pop m id owner false second (none, m') =
      view-link m' second (receiver id owner) refl refl refl

  -- And an awaiting receive.
  pub view-recv :
      (m : Mailbox T) (id owner : ℕ) (first second : Bool)
      → Channel.recv
          (view m)
          id
          (canceled_now stopped owner first)
          (canceled_now stopped owner second)
        ≡ view_answer (recv stopped m id owner first second)
  unfolding Channel.recv recv
  view-recv m id owner first second =
      if_related Agrees (canceled_now stopped owner first) _ _ _ _ (λ _. refl)
        λ _.
          subst
            (λ p.
              Agrees (popped_answer id m.closed (canceled_now stopped owner second) p)
                (elim (pop stopped m).0 [
                  | some v ↦ (false, with_value (some v) (receiver id owner), (pop stopped m).1)
                  | none ↦
                      if m.closed
                      then (false, receiver id owner, (pop stopped m).1)
                      else link stopped (pop stopped m).1 second (receiver id owner)
                ]))
            (sym (view-pop m)) (view_recv_pop m id owner m.closed second (pop stopped m))

  -- And the calls that do not wait.
  pub view-try_send :
      (m : Mailbox T) (v : T)
      → Channel.try_send (view m) v ≡ ((try_send stopped m v).0, view (try_send stopped m v).1)
  unfolding Channel.try_send try_send
  view-try_send m v = rw (view-push m v) (ground arith)

  pub view-try_recv :
      (m : Mailbox T)
      → Channel.try_recv (view m) ≡ ((try_recv stopped m).0, view (try_recv stopped m).1)
  unfolding Channel.try_recv try_recv
  view-try_recv m = view-pop m
