-- ===== src/Multishot/Feed.antt =====
-- What the loops `accept` and `watch` do, against a plain reading of the completions.
use snowy.Prelude.{
  ℕ, zero, suc, ◌≡◌, refl, ap, fun_ext, ◌∙◌, Bool, true, false, Option, none, some, List, [], ◌∷◌,
  ◌==◌, if◌then◌else◌, arith,
}
use snowy.Fault.{Fault, system_error, Code, count, failed}
use snowy.Multishot.{
  Reply, proceed, halt, raise, Cqe, cqe, Stream, Next, returned, again, threw, Shot, early,
  completions, fresh, replied, settle, onward, close, deliver, shoot, rounds, canceled, never,
  watch, accept, Accepting, observe, adopt, called,
}

-- The results that are not errors, and the last error, of the completions of a round.
abbrev pub items : List Cqe → List ℕ
items [] = []
items (cqe (count n) k ∷ cs) = n ∷ items cs
items (cqe (failed e) k ∷ cs) = items cs

abbrev pub last_error : ℕ → List Cqe → ℕ
last_error e [] = e
last_error e (cqe (count n) k ∷ cs) = last_error e cs
last_error e (cqe (failed d) k ∷ cs) = last_error d cs

abbrev last_bytes : ℕ → List Cqe → ℕ
last_bytes n [] = n
last_bytes n (cqe (count m) k ∷ cs) = last_bytes m cs
last_bytes n (cqe (failed d) k ∷ cs) = last_bytes n cs

module _ {S : Type 0} (call : S → ℕ → S × Reply) (discard : S → ℕ → S) where
  abbrev pub discard_all : S → List ℕ → S
  discard_all s [] = s
  discard_all s (x ∷ xs) = discard_all (discard s x) xs

  abbrev pub feed_on : (S → S × Reply) → S × Reply → List ℕ → S × Reply
  feed_on more (s, proceed) xs = more s
  feed_on more (s, halt) xs = (discard_all s xs, halt)
  feed_on more (s, raise f) xs = (discard_all s xs, raise f)

  -- Items go to the consumer up to the first that it does not answer with true.
  abbrev pub feed : S → List ℕ → S × Reply
  feed s [] = (s, proceed)
  feed s (x ∷ xs) = feed_on (λ s'. feed s' xs) (call s x) xs

  -- What a round's replies and last error come to.
  abbrev pub concluded : Reply → ℕ → Next
  concluded (raise f) e = threw f
  concluded halt e =
      if e == 0 then returned else if e == canceled then returned else threw (system_error e)
  concluded proceed e = if e == 0 then again else threw (system_error e)

  -- The loop, read off its completions.
  unfoldable pub expected : S → List Shot → S × Next
  expected s [] = (s, again)
  expected s (early ∷ shots) = (s, threw (system_error canceled))
  expected s (completions cs ∷ shots) =
      let (s', r) = feed s (items cs) in
      onward (λ t. expected t shots) s' (concluded r (last_error 0 cs))

  abbrev stopped_stream : S → Option Fault → ℕ → ℕ → Stream S
  stopped_stream s f e n = record {
    context = s;
    stopped = true;
    failure = f;
    canceling = true;
    error = e;
    bytes = n;
  }

  -- A stream after a reply, with an error and a byte count.
  abbrev after : S × Reply → ℕ → ℕ → Stream S
  after (s, proceed) e n = record (fresh s) { error = e; bytes = n }
  after (s, halt) e n = stopped_stream s none e n
  after (s, raise f) e n = stopped_stream s (some f) e n

  module _ (consume : S → Bool → Code → ℕ → S × Reply)
      (on_failed : (s : S) (b : Bool) (e k : ℕ) → consume s b (failed e) k ≡ (s, proceed))
      (on_stopped : (s : S) (n k : ℕ) → consume s true (count n) k ≡ (discard s n, proceed))
      (on_open : (s : S) (n k : ℕ) → consume s false (count n) k ≡ call s n) where
    deliver_stopped :
        (cs : List Cqe) (s : S) (f : Option Fault) (e n : ℕ)
        → deliver consume cs (stopped_stream s f e n)
          ≡ stopped_stream (discard_all s (items cs)) f (last_error e cs) (last_bytes n cs)
    unfolding deliver
    deliver_stopped [] s f e n = refl
    deliver_stopped (cqe (count m) k ∷ cs) s f e n =
        ap (λ x. deliver consume cs (replied x (stopped_stream s f e m))) (on_stopped s m k)
        ∙ deliver_stopped cs (discard s m) f e m
    deliver_stopped (cqe (failed d) k ∷ cs) s f e n =
        ap (λ x. deliver consume cs (replied x (stopped_stream s f d n))) (on_failed s true d k)
        ∙ deliver_stopped cs s f d n

    delivered_on :
        (cs : List Cqe) (s : S) (x : S × Reply) (e n : ℕ)
        → ((s' : S)
            → deliver consume cs (record (fresh s') { error = e; bytes = n })
              ≡ after (feed s' (items cs)) (last_error e cs) (last_bytes n cs))
        → deliver consume cs (replied x (record (fresh s) { error = e; bytes = n }))
          ≡ after
              (feed_on (λ s'. feed s' (items cs)) x (items cs))
              (last_error e cs)
              (last_bytes n cs)
    delivered_on cs s (s', proceed) e n h = h s'
    delivered_on cs s (s', halt) e n h = deliver_stopped cs s' none e n
    delivered_on cs s (s', raise f) e n h = deliver_stopped cs s' (some f) e n

    deliver_open :
        (cs : List Cqe) (s : S) (e n : ℕ)
        → deliver consume cs (record (fresh s) { error = e; bytes = n })
          ≡ after (feed s (items cs)) (last_error e cs) (last_bytes n cs)
    unfolding deliver
    deliver_open [] s e n = refl
    deliver_open (cqe (count m) k ∷ cs) s e n =
        ap (λ x. deliver consume cs (replied x (record (fresh s) { error = e; bytes = m })))
          (on_open s m k)
        ∙ delivered_on cs s (call s m) e m (λ s'. deliver_open cs s' e m)
    deliver_open (cqe (failed d) k ∷ cs) s e n =
        ap (λ x. deliver consume cs (replied x (record (fresh s) { error = d; bytes = n })))
          (on_failed s false d k)
        ∙ deliver_open cs s d n

    abbrev rounds_end : (S → S × Next) → Stream S → S × Next
    rounds_end more r = onward more r.context (settle never never r)

    ended :
        (more : S → S × Next) (x : S × Reply) (e n : ℕ)
        → rounds_end more (after x e n) ≡ onward more x.0 (concluded x.1 e)
    unfolding settle
    ended more (s, proceed) zero n = refl
    ended more (s, proceed) (suc e) n = refl
    ended more (s, halt) zero n = refl
    ended more (s, halt) (suc e) n = ground arith
    ended more (s, raise f) zero n = refl
    ended more (s, raise f) (suc e) n = ground arith

    rounds-expected :
        (shots : List Shot) (s : S) → rounds consume never never shots s ≡ expected s shots
    unfolding rounds shoot expected
    rounds-expected [] s = refl
    rounds-expected (early ∷ shots) s =
        ended (λ t. rounds consume never never shots t) (s, proceed) canceled 0
    rounds-expected (completions cs ∷ shots) s =
        ap (rounds_end (λ t. rounds consume never never shots t)) (deliver_open cs s 0 0)
        ∙ ended (λ t. rounds consume never never shots t) (feed s (items cs)) (last_error 0 cs)
            (last_bytes 0 cs)
        ∙ ap
            (λ (k : S → S × Next).
              onward k (feed s (items cs)).0 (concluded (feed s (items cs)).1 (last_error 0 cs)))
            (fun_ext (λ t. rounds-expected shots t))

-- `watch` gives its consumer the readiness of each round, in order, up to the first that it does not
-- answer with true. An exception of the consumer is then thrown, whatever the request reports;
-- after false the task returns, unless the request failed otherwise than by cancellation; and as
-- long as it answers true the task arms another request, unless the request failed, which is thrown.
pub watch-expected :
    {U : Type 0} (fn : U → ℕ → U × Reply) (shots : List Shot) (u : U)
    → watch fn shots u ≡ expected fn (λ s n. s) u shots
unfolding watch
watch-expected fn shots u =
    rounds-expected fn (λ s n. s) (observe fn) (λ s b e k. refl) (λ s n k. refl) (λ s n k. refl)
      shots u

-- `accept` gives its consumer the sockets of each round, in order, up to the first that it does not
-- answer with true, and closes, in order, those sockets of that round that come later. An exception
-- of the consumer is then thrown, whatever the request reports; after false the task returns, unless
-- the request failed otherwise than by cancellation; and as long as the consumer answers true, the
-- task arms another request, unless the request failed, which is thrown.
pub accept-expected :
    {U : Type 0} (fn : U → ℕ → U × Reply) (shots : List Shot) (u : U)
    → accept fn shots u
      ≡ expected
          (λ (s : Accepting U). λ fd. called s (fn s.user fd))
          close
          (record { user = u; closed = [] })
          shots
unfolding accept
accept-expected {U} fn shots u =
    rounds-expected (λ (s : Accepting U). λ fd. called s (fn s.user fd)) close (adopt fn)
      (λ s b e k. refl) (λ s n k. refl) (λ s n k. refl) shots (record { user = u; closed = [] })
