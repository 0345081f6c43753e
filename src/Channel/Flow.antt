-- ===== src/Channel/Flow.antt =====
-- Each transfer on a channel of channel.hpp: what it accepts goes behind the values in flight, and
-- what it delivers comes from their front.
use snowy.Prelude.{
  ◌≡◌, refl, Bool, true, false, ◌||◌, Option, List, [], ◌∷◌, ◌++◌, arith, if◌then◌else◌, sym, ◌∙◌,
  ap, append_assoc, append-nil, inl, inr, subst, All, All-append, ℕ,
}
use snowy.Buffer.{Buffer, capacity}
use snowy.Channel.{Node, Channel, link, send_node, moved}
use snowy.Channel.Invariant.{
  IsValid, Payload, pending, blocked, received, received-append, cons_value, Queued,
}
use snowy.Channel.Pop.{Popped, head?, tail}
use snowy.Channel.Push.{Pushed}
use snowy.Channel.Steps.{accepted_send}

module _ {T : Type 0} where
  -- Accepting `acc`, returning `ret` and handing over `h` on the way from `c` to `c'`.
  pub record Flow (c : Channel T) (xs acc ret : List T) (c' : Channel T) : Type 0 where
    pub ys : List T
    pub h : List T
    pub valid : IsValid c' ys
    pub told : received c'.ready ≡ received c.ready ++ h
    pub balance : pending c xs ++ acc ≡ ret ++ (h ++ pending c' ys)

  pub Flow-refl : (c : Channel T) (xs : List T) → IsValid c xs → Flow c xs [] [] c
  Flow-refl c xs v = record {
    ys = xs;
    h = [];
    valid = v;
    told = sym (append-nil _);
    balance = append-nil _;
  }

  pub push-Flow :
      (c : Channel T) (xs : List T) (v : T) (o : Bool × Channel T)
      → Pushed c xs v o
      → Flow c xs (if o.0 then v ∷ [] else []) [] o.1
  push-Flow c xs v (done, c') (ys, i, inl (e, w)) = rw e (record {
    ys = ys;
    h = v ∷ [];
    valid = i;
    told = ap received w.queue ∙ received-append w.before (w.receiver ∷ []) ∙ ground arith;
    balance = rw (w.nothing_before, w.nothing_after);
  })
  push-Flow c xs v (done, c') (ys, i, inr (inl (e, room, f, g))) =
      rw e (record { ys = ys; h = []; valid = i; told = rw (append-nil, g); balance = sym f })
  push-Flow c xs v (done, c') (ys, i, inr (inr (e, _, _, f, g, _))) = rw e (record {
    ys = ys;
    h = [];
    valid = i;
    told = rw (append-nil, g);
    balance = append-nil _ ∙ sym f;
  })

  pub pop-Flow :
      (c : Channel T) (xs : List T) (o : Option T × Channel T)
      → Popped c xs o
      → Flow c xs [] (cons_value o.0 []) o.1
  pop-Flow c xs (value, c') (ys, i, e, f, g, _) = record {
    ys = ys;
    h = [];
    valid = i;
    told = rw (append-nil, g);
    balance =
        append-nil _ ∙ front (pending c xs) value e ∙ ap (λ vs. cons_value value [] ++ vs) (sym f);
  }
    where
      front : (vs : List T) (o : Option T) → o ≡ head? vs → vs ≡ cons_value o [] ++ tail vs
      front [] o e = rw e
      front (v ∷ vs) o e = rw e

  blocked-append :
      (stopped : Bool) (ws vs : List (Node T))
      → blocked stopped (ws ++ vs) ≡ blocked stopped ws ++ blocked stopped vs
  blocked-append stopped [] vs = refl
  blocked-append stopped (w ∷ ws) vs = ground (arith, blocked-append stopped ws vs)

  Queued-append :
      (b : Buffer T) (ws : List (Node T)) (n : Node T)
      → All (λ (w : Node T). w.sending ≡ n.sending) ws
      → b.size ≡ (if n.sending then capacity b else 0)
      → Queued b (ws ++ (n ∷ []))
  Queued-append b [] n a e = (tt, e)
  Queued-append b (w ∷ ws) n a e = (
    All-append _ ws (n ∷ []) (subst (λ d. All (λ (u : Node T). u.sending ≡ d) ws) (sym a.0) a.1)
        (sym a.0, tt),
    rw a.0 e,
  )

  -- A node that is parked behind waiters of its own direction.
  link-Flow :
      (c : Channel T) (xs acc : List T) (second : Bool) (n : Node T)
      → IsValid c xs
      → c.closed ≡ false
      → c.stopped || second ≡ false
      → Payload n
      → n.canceled ≡ false
      → All (λ (w : Node T). w.sending ≡ n.sending) c.waiters
      → c.buffer.size ≡ (if n.sending then capacity c.buffer else 0)
      → acc ≡ blocked c.stopped (record n { active = true } ∷ [])
      → Flow c xs acc [] (link c second n).2
  link-Flow c xs acc second n i d going p live a e k =
      rw (going, link)
        (record {
          ys = xs;
          h = [];
          valid = record {
            holds = i.holds;
            payload = All-append _ c.waiters _ i.payload (p, tt);
            queued = Queued-append c.buffer c.waiters (record n { active = true }) a e;
            drained = λ h. cc;
          };
          told = sym (append-nil _);
          balance =
              rw (blocked-append c.stopped c.waiters (record n { active = true } ∷ []), k)
                (append_assoc xs _ _);
        })

  Flow-then :
      (c : Channel T) (xs acc : List T) (c' c'' : Channel T) (f : Flow c xs [] [] c')
      → Flow c' f.ys acc [] c''
      → Flow c xs acc [] c''
  Flow-then c xs acc c' c'' f g = record {
    ys = g.ys;
    h = f.h ++ g.h;
    valid = g.valid;
    told = rw (g.told, f.told) (append_assoc (received c.ready) f.h g.h);
    balance =
        rw (sym (append-nil (pending c xs)) ∙ f.balance, append_assoc f.h g.h (pending c'' g.ys))
          (append_assoc f.h (pending c' f.ys) acc ∙ ap (λ vs. f.h ++ vs) g.balance);
  }

  -- A sender or a receiver that was not served parks, unless its token has been triggered.
  pub link_or_cancel :
      (c : Channel T) (xs acc : List T) (c' : Channel T) (second : Bool) (n : Node T)
      → (f : Flow c xs [] [] c') → c'.closed ≡ false
      → c'.stopped ≡ false
      → Payload n
      → n.canceled ≡ false
      → All (λ (w : Node T). w.sending ≡ n.sending) c'.waiters
      → c'.buffer.size ≡ (if n.sending then capacity c'.buffer else 0)
      → acc ≡ (if second then [] else if n.sending then cons_value n.value [] else [])
      → Flow c xs acc [] (link c' second n).2
  link_or_cancel c xs acc c' true n f d s p live a e k = simp (s, link, k) f
  link_or_cancel c xs acc c' false n f d s p live a e k =
      Flow-then c xs _ c' _ f
        (link-Flow c' f.ys _ false n f.valid d (rw s) p live a e (ground arith))

  -- What a parked or canceled sender had accepted.
  accepted-link :
      (c : Channel T) (id : ℕ) (v : T) (second : Bool)
      → c.stopped ≡ false
      → accepted_send v (link c second (send_node id v)) ≡ (if second then [] else v ∷ [])
  accepted-link c id v true s = ground arith
  accepted-link c id v false s = ground arith

  -- A sender, once `push` has answered.
  pub send_after :
      (c : Channel T) (xs : List T) (id : ℕ) (v : T) (second : Bool) (o : Bool × Channel T)
      → o.1.closed ≡ false
      → o.1.stopped ≡ false
      → Pushed c xs v o
      → let r =
          (if o.0
            then (false, moved (send_node id v), o.1)
            else link o.1 second (send_node id v)) in
        Flow c xs (accepted_send v r) [] r.2
  send_after c xs id v second (true, c') d s p = push-Flow c xs v (true, c') p
  send_after c xs id v second (false, c') d s (ys, i, inl (e, w)) = cc
  send_after c xs id v second (false, c') d s (ys, i, inr (inl (e, _, _, _))) = cc
  send_after c xs id v second (false, c') d s (ys, i, inr (inr (e, full, b, f, g, a))) =
      link_or_cancel c xs _ c' second (send_node id v)
        (push-Flow c xs v (false, c') (ys, i, inr (inr (e, full, b, f, g, a)))) d s refl refl a
        (ground arith) (accepted-link c' id v second s)
