-- ===== src/Channel/Fifo.antt =====
-- The four transfers of channel.hpp and the order of the values that pass through a channel.
use snowy.Prelude.{
  ◌≡◌, refl, Bool, true, false, ◌||◌, ◌&&◌, not, Option, none, some, List, [], ◌∷◌, ◌++◌, arith,
  if◌then◌else◌, sym, ◌∙◌, ap, append_assoc, append-nil, drop-length-append, ℕ, ◌≤◌, subst,
  if_cases,
}
use snowy.Buffer.Contents.{max_slots, allocate-Holds}
use snowy.Channel.{
  Node, Channel, create, push, pop, link, try_send, try_recv, send, recv, recv_node,
}
use snowy.Channel.Invariant.{IsValid, pending, received, cons_value}
use snowy.Channel.Pop.{Popped, pop-Popped, head?, tail}
use snowy.Channel.Push.{push-Pushed}
use snowy.Channel.Steps.{
  Transfer, trying_send, trying_recv, sending, receiving, move, accepted, returned, handed, moves,
  all_accepted, all_delivered, accepted_send,
}
use snowy.Channel.Frame.{push_frame, pop_frame}
use snowy.Channel.Flow.{Flow, Flow-refl, push-Flow, pop-Flow, send_after, link_or_cancel}

module _ {T : Type 0} where
  -- With nothing in flight, nothing is buffered.
  idle_size :
      (c : Channel T) (ys vs : List T)
      → IsValid c ys
      → none ≡ head? vs
      → pending c ys ≡ tail vs
      → c.buffer.size ≡ 0
  idle_size c ys (x ∷ vs) i e f = cc
  idle_size c [] [] i e f = i.holds.counted
  idle_size c (y ∷ ys) [] i e f = cc

  -- A receiver, once `pop` has answered with nothing.
  recv_waits :
      (c : Channel T) (xs : List T) (id : ℕ) (closed second : Bool) (c' : Channel T)
      → c'.closed ≡ closed
      → c'.stopped ≡ false
      → Popped c xs (none, c')
      → let r = (if closed then (false, recv_node id, c') else link c' second (recv_node id)) in
        Flow c xs [] (cons_value r.1.value []) r.2
  recv_waits c xs id true second c' d s p = pop-Flow c xs (none, c') p
  recv_waits c xs id false second c' d s (ys, i, e, f, g, a) =
      subst (λ r. Flow c xs [] r (link c' second (recv_node id)).2) (ground arith)
        (link_or_cancel c xs [] c' second (recv_node id)
          (pop-Flow c xs (none, c') (ys, i, e, f, g, a)) d s refl refl (a refl)
          (idle_size c' ys (pending c xs) i e f) (ground arith))

  recv_after :
      (c : Channel T) (xs : List T) (id : ℕ) (closed second : Bool) (o : Option T × Channel T)
      → o.1.closed ≡ closed
      → o.1.stopped ≡ false
      → Popped c xs o
      → let waits =
          (if closed then (false, recv_node id, o.1) else link o.1 second (recv_node id)) in
        let r : Bool × Node T × Channel T = elim o.0 [
          | some v ↦ (false, record (recv_node id) { value = some v }, o.1)
          | none ↦ waits
        ] in
        Flow c xs [] (cons_value r.1.value []) r.2
  recv_after c xs id closed second (none, c') d s p = recv_waits c xs id closed second c' d s p
  recv_after c xs id closed second (some v, c') d s p = pop-Flow c xs (some v, c') p

  send-Flow :
      (c : Channel T) (xs : List T) (id : ℕ) (v : T) (first second : Bool)
      → IsValid c xs
      → let r = send c id v first second in Flow c xs (accepted_send v r) [] r.2
  unfolding send
  send-Flow c xs id v first second i =
      let P = λ (r : Bool × Node T × Channel T). Flow c xs (accepted_send v r) [] r.2 in
      if_cases P (c.stopped || first) _ _ (λ _. Flow-refl c xs i)
        λ going.
          if_cases P c.closed _ _ (λ _. Flow-refl c xs i)
            λ d.
              let (d', s') = push_frame c v in
              send_after c xs id v second (push c v) (d' ∙ d) (s' ∙ ground arith)
                (push-Pushed c xs v i)

  recv-Flow :
      (c : Channel T) (xs : List T) (id : ℕ) (first second : Bool)
      → IsValid c xs
      → let r = recv c id first second in Flow c xs [] (cons_value r.1.value []) r.2
  unfolding recv
  recv-Flow c xs id first second i =
      if_cases (λ (r : Bool × Node T × Channel T). Flow c xs [] (cons_value r.1.value []) r.2)
        (c.stopped || first) _ _ (λ _. Flow-refl c xs i)
        λ going.
          let (d', s') = pop_frame c in
          recv_after c xs id c.closed second (pop c) d' (s' ∙ ground arith) (pop-Popped c xs i)

  try_send-Flow :
      (c : Channel T) (xs : List T) (v : T)
      → IsValid c xs
      → let r = try_send c v in Flow c xs (if r.0 then v ∷ [] else []) [] r.1
  unfolding try_send
  try_send-Flow c xs v i =
      if_cases (λ (r : Bool × Channel T). Flow c xs (if r.0 then v ∷ [] else []) [] r.1)
        (not c.closed && not c.stopped) _ _
        (λ _. push-Flow c xs v (push c v) (push-Pushed c xs v i)) (λ _. Flow-refl c xs i)

  try_recv-Flow :
      (c : Channel T) (xs : List T)
      → IsValid c xs
      → let r = try_recv c in Flow c xs [] (cons_value r.0 []) r.1
  unfolding try_recv
  try_recv-Flow c xs i =
      if_cases (λ (r : Option T × Channel T). Flow c xs [] (cons_value r.0 []) r.1) c.stopped _ _
        (λ _. Flow-refl c xs i) (λ _. pop-Flow c xs (pop c) (pop-Popped c xs i))

  pub move-Flow :
      (c : Channel T) (xs : List T) (t : Transfer T)
      → IsValid c xs
      → Flow c xs (accepted c t) (returned c t) (move c t)
  unfolding move accepted returned
  move-Flow c xs (trying_send v) i = try_send-Flow c xs v i
  move-Flow c xs trying_recv i = try_recv-Flow c xs i
  move-Flow c xs (sending id v first second) i = send-Flow c xs id v first second i
  move-Flow c xs (receiving id first second) i = recv-Flow c xs id first second i

  handed_lem :
      (c : Channel T) (xs : List T) (t : Transfer T)
      (f : Flow c xs (accepted c t) (returned c t) (move c t))
      → handed c t ≡ f.h
  unfolding handed
  handed_lem c xs t f = rw f.told (drop-length-append (received c.ready) f.h)

  -- On a valid channel, what a transfer accepts goes behind the values in flight, and what it
  -- delivers, to its caller or to a waiting receiver, is taken from their front, in order; the
  -- channel stays valid.
  pub move_fifo :
      (c : Channel T) (xs : List T) (t : Transfer T)
      → IsValid c xs
      → (ys : List T) × IsValid (move c t) ys
        × (pending c xs ++ accepted c t ≡ returned c t ++ (handed c t ++ pending (move c t) ys))
  move_fifo c xs t i =
      let f = move-Flow c xs t i in (f.ys, f.valid, rw (handed_lem c xs t f) f.balance)

  pub moves_fifo :
      (c : Channel T) (xs : List T) (ts : List (Transfer T))
      → IsValid c xs
      → (ys : List T) × IsValid (moves c ts) ys
        × (pending c xs ++ all_accepted c ts ≡ all_delivered c ts ++ pending (moves c ts) ys)
  unfolding moves all_accepted all_delivered
  moves_fifo c xs [] i = (xs, i, append-nil _)
  moves_fifo c xs (t ∷ ts) i =
      let (ys, v, e) = move_fifo c xs t i in
      let (zs, w, f) = moves_fifo (move c t) ys ts v in
      (
        zs,
        w,
        sym (append_assoc (pending c xs) (accepted c t) (all_accepted (move c t) ts))
            ∙ ap (λ vs. vs ++ all_accepted (move c t) ts) e
            ∙ ground (
              arith,
              append_assoc (returned c t) (handed c t ++ pending (move c t) ys)
                  (all_accepted (move c t) ts),
              append_assoc (handed c t) (pending (move c t) ys) (all_accepted (move c t) ts),
              append_assoc (returned c t) (handed c t ++ all_delivered (move c t) ts)
                  (pending (moves (move c t) ts) zs),
              append_assoc (handed c t) (all_delivered (move c t) ts)
                  (pending (moves (move c t) ts) zs),
            ),
      )

  -- From a new channel of at most `max_slots` slots, any sequence of sends and receives, blocking
  -- or not, delivers the values in the order in which they were accepted, each once: those
  -- delivered, then those still in flight, are those accepted.
  pub create_fifo :
      (capacity : ℕ) (ts : List (Transfer T))
      → capacity ≤ max_slots
      → let c = create capacity in
        (ys : List T) × IsValid (moves c ts) ys
        × (all_accepted c ts ≡ all_delivered c ts ++ pending (moves c ts) ys)
  unfolding create
  create_fifo capacity ts h =
      moves_fifo (create capacity) [] ts (record {
        holds = allocate-Holds capacity h;
        payload = tt;
        queued = tt;
        drained = λ _. refl;
      })
