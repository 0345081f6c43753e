-- ===== src/Mailbox/Steps.antt =====
-- Calls on a mailbox of mailbox.hpp by any threads, in the order in which they take the mutex, and
-- the order of the values that pass through.
use snowy.Prelude.{
  ℕ, ◌≡◌, refl, Bool, true, false, none, some, List, [], ◌∷◌, ◌++◌, map, arith, if◌then◌else◌, ◌∙◌,
  ap, drop, length,
}
use snowy.WaitQueue.{Waiter, canceled_now}
use snowy.Channel.Invariant.{received, cons_value}
use snowy.Channel.Steps
use snowy.Channel.Steps.{Transfer}
use snowy.Mailbox.{Mailbox, Parcel, send, recv, try_send, try_recv}
use snowy.Mailbox.Refine.{
  view, view_answer, sent_node, view-send, view-recv, view-try_send, view-try_recv,
}

pub data Call (T : Type 0) : Type 0 where
  trying_send : T → Call T
  trying_recv : Call T
  sending : ℕ → ℕ → T → Bool → Bool → Call T
  receiving : ℕ → ℕ → Bool → Bool → Call T

module _ {T : Type 0} where
  abbrev pub accepted_send : T → Bool × Waiter (Parcel T) × Mailbox T → List T
  accepted_send v (true, w, m) = v ∷ []
  accepted_send v (false, w, m) = elim w.error [ none ↦ v ∷ [] | some e ↦ [] ]

  -- The values that receivers among delivered waiters carry.
  abbrev pub carried : List (Waiter (Parcel T)) → List T
  carried [] = []
  carried (w ∷ ws) =
      let rest = carried ws in if w.payload.sending then rest else cons_value w.payload.value rest

  module _ (stopped : ℕ → Bool) where
    unfoldable pub move : Mailbox T → Call T → Mailbox T
    move m (trying_send v) = (try_send stopped m v).1
    move m trying_recv = (try_recv stopped m).1
    move m (sending id owner v first second) = (send stopped m id owner v first second).2
    move m (receiving id owner first second) = (recv stopped m id owner first second).2

    -- What a call puts in flight, and what it hands to its caller and to waiting receivers.
    unfoldable pub accepted : Mailbox T → Call T → List T
    accepted m (trying_send v) = if (try_send stopped m v).0 then v ∷ [] else []
    accepted m trying_recv = []
    accepted m (sending id owner v first second) =
        accepted_send v (send stopped m id owner v first second)
    accepted m (receiving id owner first second) = []

    unfoldable pub returned : Mailbox T → Call T → List T
    returned m (trying_send v) = []
    returned m trying_recv = cons_value (try_recv stopped m).0 []
    returned m (sending id owner v first second) = []
    returned m (receiving id owner first second) =
        cons_value (recv stopped m id owner first second).1.payload.value []

    unfoldable pub handed : Mailbox T → Call T → List T
    handed m t = drop (length (carried m.sent)) (carried (move m t).sent)

    unfoldable pub all_accepted : Mailbox T → List (Call T) → List T
    all_accepted m [] = []
    all_accepted m (t ∷ ts) = accepted m t ++ all_accepted (move m t) ts

    unfoldable pub all_delivered : Mailbox T → List (Call T) → List T
    all_delivered m [] = []
    all_delivered m (t ∷ ts) = returned m t ++ (handed m t ++ all_delivered (move m t) ts)

    unfoldable pub moves : Mailbox T → List (Call T) → Mailbox T
    moves m [] = m
    moves m (t ∷ ts) = moves (move m t) ts

    abbrev pub view_call : Call T → Transfer T
    view_call (trying_send v) = Transfer.trying_send v
    view_call trying_recv = Transfer.trying_recv
    view_call (sending id owner v first second) =
        Transfer.sending id v (canceled_now stopped owner first) (canceled_now stopped owner second)
    view_call (receiving id owner first second) =
        Transfer.receiving id (canceled_now stopped owner first) (canceled_now stopped owner second)

    answer_state :
        (o : Bool × Waiter (Parcel T) × Mailbox T) → (view_answer stopped o).2 ≡ view stopped o.2
    answer_state (true, w, m) = refl
    answer_state (false, w, m) = refl

    answer_value :
        (o : Bool × Waiter (Parcel T) × Mailbox T)
        → (view_answer stopped o).1.value ≡ o.1.payload.value
    answer_value (true, w, m) = refl
    answer_value (false, w, m) = refl

    answer_accepted :
        (v : T) (o : Bool × Waiter (Parcel T) × Mailbox T)
        → Steps.accepted_send v (view_answer stopped o) ≡ accepted_send v o
    answer_accepted v (true, w, m) = refl
    answer_accepted v (false, w, m) = refl

    pub view-move :
        (m : Mailbox T) (t : Call T)
        → Steps.move (view stopped m) (view_call t) ≡ view stopped (move m t)
    unfolding Steps.move move
    view-move m (trying_send v) = ap (λ r. r.1) (view-try_send stopped m v)
    view-move m trying_recv = ap (λ r. r.1) (view-try_recv stopped m)
    view-move m (sending id owner v first second) =
        ap (λ r. r.2) (view-send stopped m id owner v first second)
        ∙ answer_state (send stopped m id owner v first second)
    view-move m (receiving id owner first second) =
        ap (λ r. r.2) (view-recv stopped m id owner first second)
        ∙ answer_state (recv stopped m id owner first second)

    pub view-accepted :
        (m : Mailbox T) (t : Call T) → Steps.accepted (view stopped m) (view_call t) ≡ accepted m t
    unfolding Steps.accepted accepted
    view-accepted m (trying_send v) =
        ap (λ r. if r.0 then v ∷ [] else []) (view-try_send stopped m v)
    view-accepted m trying_recv = refl
    view-accepted m (sending id owner v first second) =
        ap (Steps.accepted_send v) (view-send stopped m id owner v first second)
        ∙ answer_accepted v (send stopped m id owner v first second)
    view-accepted m (receiving id owner first second) = refl

    pub view-returned :
        (m : Mailbox T) (t : Call T) → Steps.returned (view stopped m) (view_call t) ≡ returned m t
    unfolding Steps.returned returned
    view-returned m (trying_send v) = refl
    view-returned m trying_recv = ap (λ r. cons_value r.0 []) (view-try_recv stopped m)
    view-returned m (sending id owner v first second) = refl
    view-returned m (receiving id owner first second) =
        ap (λ r. cons_value r.1.value []) (view-recv stopped m id owner first second)
        ∙ ap (λ v. cons_value v []) (answer_value (recv stopped m id owner first second))

    received-sent :
        (ws : List (Waiter (Parcel T))) → received (map (sent_node stopped) ws) ≡ carried ws
    received-sent [] = refl
    received-sent (w ∷ ws) = ground (arith, received-sent ws)

    pub view-handed :
        (m : Mailbox T) (t : Call T) → Steps.handed (view stopped m) (view_call t) ≡ handed m t
    unfolding Steps.handed handed
    view-handed m t = rw (view-move m t, received-sent m.sent, received-sent (move m t).sent)
