-- ===== src/Mailbox/Fifo.antt =====
-- The mailbox of mailbox.hpp as the channel of channel.hpp, call by call, and its order.
use snowy.Prelude.{ℕ, ◌≡◌, ◌≤◌, refl, Bool, false, List, [], ◌∷◌, ◌++◌, map, sym, ◌∙◌, ap, ap₂}
use snowy.Buffer.Contents.{max_slots, allocate-Holds}
use snowy.Channel.Invariant.{IsValid, blocked}
use snowy.Channel.Invariant
use snowy.Channel.Steps
use snowy.Channel.Fifo.{moves_fifo}
use snowy.Mailbox.{Mailbox, create}
use snowy.Mailbox.Refine.{view, view_node}
use snowy.Mailbox.Steps.{
  Call, move, accepted, returned, handed, all_accepted, all_delivered, moves, view_call, view-move,
  view-accepted, view-returned, view-handed,
}

module _ {T : Type 0} (stopped : ℕ → Bool) where
  -- A call on a mailbox does what the same call does on a channel whose waiters are the mailbox's,
  -- a waiter being canceled there if it or its loop is: it leaves the same state, accepts the same
  -- value, and delivers the same values to its caller and to waiting receivers.
  pub call_refines :
      (m : Mailbox T) (t : Call T)
      → (Steps.move (view stopped m) (view_call stopped t) ≡ view stopped (move stopped m t))
        × (Steps.accepted (view stopped m) (view_call stopped t) ≡ accepted stopped m t)
        × (Steps.returned (view stopped m) (view_call stopped t) ≡ returned stopped m t)
        × (Steps.handed (view stopped m) (view_call stopped t) ≡ handed stopped m t)
  call_refines m t = (
    view-move stopped m t,
    view-accepted stopped m t,
    view-returned stopped m t,
    view-handed stopped m t,
  )

  -- The values of the waiting senders that are live, oldest first.
  abbrev pub pending : Mailbox T → List T → List T
  pending m xs = xs ++ blocked false (map (view_node stopped) m.waiters)

  view-moves :
      (m : Mailbox T) (ts : List (Call T))
      → (Steps.moves (view stopped m) (map (view_call stopped) ts)
          ≡ view stopped (moves stopped m ts))
        × (Steps.all_accepted (view stopped m) (map (view_call stopped) ts)
            ≡ all_accepted stopped m ts)
        × (Steps.all_delivered (view stopped m) (map (view_call stopped) ts)
            ≡ all_delivered stopped m ts)
  unfolding Steps.moves moves Steps.all_accepted all_accepted Steps.all_delivered all_delivered
  view-moves m [] = (refl, refl, refl)
  view-moves m (t ∷ ts) =
      let (a, b, c) = view-moves (move stopped m t) ts in
      let next = view-move stopped m t in
      (
        ap (λ d. Steps.moves d (map (view_call stopped) ts)) next ∙ a,
        ap₂ ◌++◌ (view-accepted stopped m t)
            (ap (λ d. Steps.all_accepted d (map (view_call stopped) ts)) next ∙ b),
        ap₂ ◌++◌ (view-returned stopped m t) (
            ap₂ ◌++◌ (view-handed stopped m t)
              (ap (λ d. Steps.all_delivered d (map (view_call stopped) ts)) next ∙ c)),
      )

  -- Whatever threads call `send`, `recv`, `try_send` and `try_recv` in whatever order, while the mailbox is
  -- not closed, no token of a waiting call is triggered and no loop is stopped or started anew,
  -- a new mailbox of at most `max_slots` slots delivers
  -- the values in the order in which it accepted them, each once: those delivered, then those
  -- still buffered or held by live senders, are those accepted.
  pub mailbox_fifo :
      (capacity : ℕ) (ts : List (Call T))
      → capacity ≤ max_slots
      → let m = create capacity in
        (ys : List T) × IsValid (view stopped (moves stopped m ts)) ys
        × (all_accepted stopped m ts
            ≡ all_delivered stopped m ts ++ pending (moves stopped m ts) ys)
  unfolding create
  mailbox_fifo capacity ts h =
      let (ys, v, e) =
        moves_fifo (view stopped (create capacity)) [] (map (view_call stopped) ts) (record {
          holds = allocate-Holds capacity h;
          payload = tt;
          queued = tt;
          drained = λ _. refl;
        }) in
      let (a, b, c) = view-moves (create capacity) ts in
      (ys, rw a at v, sym b ∙ e ∙ ap₂ (λ ds c. ds ++ Invariant.pending c ys) c a)
