-- ===== src/Channel/Invariant.antt =====
-- The state that channel.hpp keeps between operations, and the values in flight as one list.
use snowy.Prelude.{
  ◌≡◌, refl, Bool, true, ◌&&◌, Option, none, some, List, [], ◌∷◌, ◌++◌, arith, same, if◌then◌else◌,
  is_some, All, sym, ◌∙◌, append-nil, false,
}
use snowy.Buffer.{Buffer, capacity}
use snowy.Buffer.Contents.{Holds}
use snowy.Errc.{operation_canceled}
use snowy.Channel.{Node, Channel, is_live, notify, fail, take}

module _ {T : Type 0} where
  -- A sender holds its value, a receiver's slot is empty.
  abbrev pub Payload : Node T → Type 0
  Payload w = is_some w.value ≡ w.sending

  -- Waiters all wait for the same thing: senders on a full buffer, receivers on an empty one.
  abbrev pub Queued : Buffer T → List (Node T) → Type 0
  Queued b [] = Unit {0}
  Queued b (w ∷ ws) =
      All (λ (n : Node T). n.sending ≡ w.sending) ws
      × (b.size ≡ (if w.sending then capacity b else 0))

  -- The channel is in order, and its buffer holds `xs`.
  pub record IsValid (c : Channel T) (xs : List T) : Type 0 where
    pub holds : Holds c.buffer xs
    pub payload : All Payload c.waiters
    pub queued : Queued c.buffer c.waiters
    pub drained : c.closed ≡ true → c.waiters ≡ []

  abbrev pub cons_value : Option T → List T → List T
  cons_value none vs = vs
  cons_value (some v) vs = v ∷ vs

  -- The values of the live senders, oldest first.
  abbrev pub blocked : Bool → List (Node T) → List T
  blocked stopped [] = []
  blocked stopped (w ∷ ws) =
      let rest = blocked stopped ws in
      if is_live stopped w && w.sending then cons_value w.value rest else rest

  -- The values that the receivers on a ready queue carry to their coroutines.
  abbrev pub received : List (Node T) → List T
  received [] = []
  received (w ∷ ws) = let rest = received ws in if w.sending then rest else cons_value w.value rest

  -- All that has been sent and not yet received: the buffer, then the live senders.
  abbrev pub pending : Channel T → List T → List T
  pending c xs = xs ++ blocked c.stopped c.waiters

  -- The waiters from the first live one on, and the ready queue after those before it are pruned.
  abbrev pub trim : Bool → List (Node T) → List (Node T)
  trim stopped [] = []
  trim stopped (w ∷ ws) = let rest = trim stopped ws in if is_live stopped w then w ∷ ws else rest

  abbrev pub prune : Bool → List (Node T) → List (Node T) → List (Node T)
  prune stopped [] ready = ready
  prune stopped (w ∷ ws) ready =
      let rest = prune stopped ws (notify (fail operation_canceled w) ready) in
      if is_live stopped w then ready else rest

  abbrev pub match_first :
      Bool → List (Node T) → List (Node T) → Option (Node T) × List (Node T) × List (Node T)
  match_first wanted [] ready = (none, [], ready)
  match_first wanted (w ∷ ws) ready =
      if same w.sending wanted then (some w, ws, ready) else (none, w ∷ ws, ready)

  -- `take` prunes up to the first live waiter, and matches that one or nothing.
  pub take_lem :
      (stopped wanted : Bool) (ws ready : List (Node T))
      → take stopped wanted ws ready ≡ match_first wanted (trim stopped ws) (prune stopped ws ready)
  unfolding take
  take_lem stopped wanted [] ready = refl
  take_lem stopped wanted (w ∷ ws) ready =
      ground (arith, take_lem stopped wanted ws (notify (fail operation_canceled w) ready))

  pub Queued-tail :
      (b : Buffer T) (w : Node T) (ws : List (Node T)) → Queued b (w ∷ ws) → Queued b ws
  Queued-tail b w [] q = tt
  Queued-tail b w (v ∷ vs) q = (go vs q.0.1, rw q.0.0 q.1)
    where
      go :
          (us : List (Node T))
          → All (λ (n : Node T). n.sending ≡ w.sending) us
          → All (λ (n : Node T). n.sending ≡ v.sending) us
      go [] h = tt
      go (u ∷ us) h = (h.0 ∙ sym q.0.0, go us h.1)

  pub trim-Queued :
      (stopped : Bool) (b : Buffer T) (ws : List (Node T))
      → Queued b ws
      → Queued b (trim stopped ws)
  trim-Queued stopped b [] q = tt
  trim-Queued stopped b (w ∷ ws) q = ground (arith, trim-Queued stopped b ws (Queued-tail b w ws q))

  pub trim-Payload :
      (stopped : Bool) (ws : List (Node T)) → All Payload ws → All Payload (trim stopped ws)
  trim-Payload stopped [] h = tt
  trim-Payload stopped (w ∷ ws) h = ground (arith, trim-Payload stopped ws h.1)

  pub blocked-trim :
      (stopped : Bool) (ws : List (Node T)) → blocked stopped (trim stopped ws) ≡ blocked stopped ws
  blocked-trim stopped [] = refl
  blocked-trim stopped (w ∷ ws) = ground (arith, blocked-trim stopped ws)

  pub trim-live :
      (stopped : Bool) (ws : List (Node T)) {w : Node T} {vs : List (Node T)}
      → trim stopped ws ≡ w ∷ vs
      → is_live stopped w ≡ true
  trim-live stopped [] e = ground arith
  trim-live stopped (u ∷ us) {w} {vs} e = ground (arith, trim-live stopped us {w = w} {vs = vs})

  pub received-append : (xs ys : List (Node T)) → received (xs ++ ys) ≡ received xs ++ received ys
  received-append [] ys = refl
  received-append (x ∷ xs) ys = ground (arith, received-append xs ys)

  -- A node that is told an error takes no value with it.
  pub received-notify :
      (w : Node T) (ready : List (Node T))
      → Payload w
      → received (notify (fail operation_canceled w) ready) ≡ received ready
  received-notify w ready p = ground (
    arith,
    received-append ready (record (fail operation_canceled w) { active = false } ∷ []),
    append-nil (received ready),
  )

  pub received-prune :
      (stopped : Bool) (ws ready : List (Node T))
      → All Payload ws
      → received (prune stopped ws ready) ≡ received ready
  received-prune stopped [] ready p = refl
  received-prune stopped (w ∷ ws) ready p = ground (
    arith,
    received-prune stopped ws (notify (fail operation_canceled w) ready) p.1,
    received-notify w ready p.0,
  )
