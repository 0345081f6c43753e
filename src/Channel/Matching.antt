-- ===== src/Channel/Matching.antt =====
-- What `take` of channel.hpp can answer on a valid channel.
use snowy.Prelude.{
  ◌≡◌, refl, Bool, true, false, not, Option, none, some, List, [], ◌∷◌, arith, same, All, subst,
  Bool-cases, inl, inr,
}
use snowy.Buffer.{Buffer, capacity}
use snowy.Channel.{Node, Channel, is_live, take}
use snowy.Channel.Invariant.{
  IsValid, Payload, Queued, blocked, trim, match_first, take_lem, trim-Queued, trim-Payload,
  blocked-trim, trim-live, received, received-prune,
}

module _ {T : Type 0} where
  pub Queued-put :
      (b d : Buffer T) (ws : List (Node T))
      → d.size ≡ b.size
      → capacity d ≡ capacity b
      → Queued b ws
      → Queued d ws
  Queued-put b d [] e f q = tt
  Queued-put b d (w ∷ ws) e f q = (q.0, rw (e, f) q.1)

  pub blocked-receivers :
      (stopped : Bool) (ws : List (Node T))
      → All (λ (n : Node T). n.sending ≡ false) ws
      → blocked stopped ws ≡ []
  blocked-receivers stopped [] h = refl
  blocked-receivers stopped (w ∷ ws) h = ground (arith, blocked-receivers stopped ws h.1)

  -- The waiters that are left, `us`, keep what a valid channel says of its waiters, and the values
  -- of the live senders.
  pub record Rest (c : Channel T) (us : List (Node T)) : Type 0 where
    pub payload : All Payload us
    pub queued : Queued c.buffer us
    pub drained : c.closed ≡ true → us ≡ []
    pub same_values : blocked c.stopped us ≡ blocked c.stopped c.waiters

  pub trim-Rest : (c : Channel T) (xs : List T) → IsValid c xs → Rest c (trim c.stopped c.waiters)
  trim-Rest c xs v = record {
    payload = trim-Payload c.stopped c.waiters v.payload;
    queued = trim-Queued c.stopped c.buffer c.waiters v.queued;
    drained = λ h. rw (v.drained h);
    same_values = blocked-trim c.stopped c.waiters;
  }

  -- What `take` can answer on a valid queue: nothing, and then no waiter that is left has the wanted
  -- direction, or the first live waiter, which has it.
  abbrev pub Taken : Channel T → Bool → Option (Node T) × List (Node T) × List (Node T) → Type 0
  Taken c wanted (none, us, r) =
      Rest c us × All (λ (n : Node T). n.sending ≡ not wanted) us × (received r ≡ received c.ready)
  Taken c wanted (some w, us, r) =
      Rest c (w ∷ us)
      × (w.sending ≡ wanted)
      × (is_live c.stopped w ≡ true)
      × (received r ≡ received c.ready)

  match_first-Taken :
      (c : Channel T) (wanted : Bool) (ts r : List (Node T))
      → trim c.stopped c.waiters ≡ ts
      → Rest c ts
      → received r ≡ received c.ready
      → Taken c wanted (match_first wanted ts r)
  match_first-Taken c wanted [] r e t g = (t, tt, g)
  match_first-Taken c wanted (w ∷ us) r e t g = elim (Bool-cases (same w.sending wanted)) [
    | inl s ↦ rw (s, match_first) (t, ground arith, trim-live c.stopped c.waiters e, g)
    | inr s ↦
        let other : w.sending ≡ not wanted = ground arith in
        rw (s, match_first)
          (t, (other, subst (λ d. All (λ (n : Node T). n.sending ≡ d) us) other t.queued.0), g)
  ]

  pub take-Taken :
      (c : Channel T) (wanted : Bool) (xs : List T)
      → IsValid c xs
      → Taken c wanted (take c.stopped wanted c.waiters c.ready)
  take-Taken c wanted xs v = rw (take_lem c.stopped wanted c.waiters c.ready) (
      match_first-Taken c wanted (trim c.stopped c.waiters) _ refl (trim-Rest c xs v)
        (received-prune c.stopped c.waiters c.ready v.payload))

  -- A waiter can be matched only while the channel is open.
  pub Rest-open :
      (c : Channel T) (w : Node T) (us : List (Node T)) → Rest c (w ∷ us) → c.closed ≡ false
  Rest-open c w us t = elim (Bool-cases c.closed) [ inl e ↦ cc (t.drained e) | inr e ↦ e ]

  -- A matched sender of a valid queue: its value heads those of the senders.
  pub sender_value :
      (c : Channel T) (w : Node T) (us : List (Node T))
      → Rest c (w ∷ us)
      → w.sending ≡ true
      → is_live c.stopped w ≡ true
      → (v : T) × (w.value ≡ some v) × (v ∷ blocked c.stopped us ≡ blocked c.stopped c.waiters)
  sender_value c w us t s l = go w.value refl
    where
      go :
          (o : Option T)
          → w.value ≡ o
          → (v : T) × (w.value ≡ some v) × (v ∷ blocked c.stopped us ≡ blocked c.stopped c.waiters)
      go none e = absurd (ground (arith, t.payload.0))
      go (some v) e = (v, e, ground (arith, t.same_values))
