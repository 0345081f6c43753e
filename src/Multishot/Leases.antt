-- ===== src/Multishot/Leases.antt =====
-- Where the buffers of `receive` and `recvmsg` go, whatever their consumer does.
use snowy.Prelude.{
  ℕ, ◌≤◌, ◌≡◌, refl, sym, subst, Bool, true, false, not, ◌&&◌, List, [], ◌∷◌, ◌++◌, if◌then◌else◌,
  get_or, append_assoc,
}
use snowy.Fault.{Result, ok, err, Code, count, failed, runtime_error}
use snowy.Provided.{Provided, Chunk, has_buffer, buffer_of, take}
use snowy.Provided.Order.{IsOrdered, taken, taken-IsOrdered, take_accepts}
use snowy.Provided.Published.{Behind, stays, put-Behind, return_held-Behind, published_later}
use snowy.Provided.Bundle.{taken_held}
use snowy.Multishot.{
  Reply, proceed, halt, raise, Cqe, cqe, Stream, fresh, noted, replied, result, deliver,
}
use snowy.Multishot.Receive.{Receiving, size_of, given_to, with_lease, consume}

-- The buffers that completions name, in order.
abbrev pub buffers : List Cqe → List ℕ
buffers [] = []
buffers (cqe res flags ∷ cs) =
    let rest = buffers cs in if has_buffer flags then buffer_of flags ∷ rest else rest

-- No completion reports more bytes than a buffer has.
abbrev pub Fits : ℕ → List Cqe → Type 0
Fits size [] = Unit
Fits size (cqe res flags ∷ cs) = (size_of res ≤ size) × Fits size cs

untaken :
    (p p' : Provided) (id : ℕ) (queue : List ℕ) → Behind (taken id p) queue p' → Behind p queue p'
untaken p p' id queue b = record {
  more = b.more;
  ordered = b.ordered;
  published = b.published;
  same_size = b.same_size;
  same_count = b.same_count;
}

module _ {U M : Type 0} (wanted : Code → Bool) (decode : Chunk → Result M)
    (fn : U → M → U × List ℕ × Reply) where
  given_to-Behind :
      (u : U) (p : Provided) (c : Chunk) (m : Result M) (queue : List ℕ)
      → get_or p.held c.id false ≡ true
      → IsOrdered p queue
      → Behind p queue (given_to wanted decode fn u p c m).0.pool
  given_to-Behind u p c (err f) queue h v = put-Behind p queue c.id h v
  given_to-Behind u p c (ok m) queue h v = return_held-Behind (fn u m).1 p queue v

  with_lease-Behind :
      (s : Receiving U) (live : Bool) (c : Chunk) (p : Provided) (queue : List ℕ)
      → get_or p.held c.id false ≡ true
      → IsOrdered p queue
      → Behind p queue (with_lease wanted decode fn s live (ok (c, p))).0.pool
  with_lease-Behind s true c p queue h v = given_to-Behind s.user p c (decode c) queue h v
  with_lease-Behind s false c p queue h v = put-Behind p queue c.id h v

  replied_pool :
      (x : Receiving U × Reply) (r : Stream (Receiving U)) → (replied x r).context.pool ≡ x.0.pool
  replied_pool (s, proceed) r = refl
  replied_pool (s, halt) r = refl
  replied_pool (s, raise f) r = refl

  -- One completion, with the buffer that the kernel took first if it has one.
  result-Behind :
      (res : Code) (flags : ℕ) (rest : List ℕ) (s : Receiving U) (stopped : Bool)
      → size_of res ≤ s.pool.size
      → IsOrdered s.pool (if has_buffer flags then buffer_of flags ∷ rest else rest)
      → Behind s.pool rest (consume wanted decode fn s stopped res flags).0.pool
  result-Behind res flags rest s stopped f v = split (has_buffer flags) refl v
    where
      split :
          (b : Bool)
          → b ≡ has_buffer flags
          → IsOrdered s.pool (if b then buffer_of flags ∷ rest else rest)
          → Behind s.pool rest
              (if b
                then with_lease wanted decode fn s
                    (wanted res && not stopped)
                    (take true flags (size_of res) s.pool)
                else (s, if wanted res then raise runtime_error else proceed)).0.pool
      split false e w = stays s.pool rest w
      split true e w =
          let p' = taken (buffer_of flags) s.pool in
          let c : Chunk = record { id = buffer_of flags; bytes = size_of res } in
          let live = wanted res && not stopped in
          subst
            (λ (x : Result (Chunk × Provided)).
              Behind s.pool rest (with_lease wanted decode fn s live x).0.pool)
            (sym
              (take_accepts s.pool flags (buffer_of flags) (size_of res) (sym e) refl w.free.0 f))
            (untaken s.pool _ (buffer_of flags) rest (
              with_lease-Behind s live c p' rest (taken_held s.pool (buffer_of flags) rest w)
                (taken-IsOrdered s.pool (buffer_of flags) rest w)))

  noted_context : (res : Code) (r : Stream (Receiving U)) → (noted res r).context ≡ r.context
  noted_context (count n) r = refl
  noted_context (failed e) r = refl

  result_pool :
      (res : Code) (flags : ℕ) (r : Stream (Receiving U))
      → (consume wanted decode fn r.context r.stopped res flags).0.pool
        ≡ (result (consume wanted decode fn) (cqe res flags) r).context.pool
  result_pool res flags r =
      sym (replied_pool (consume wanted decode fn r.context r.stopped res flags) (noted res r))

  Fits-size : (n m : ℕ) (cs : List Cqe) → n ≡ m → Fits n cs → Fits m cs
  Fits-size n m cs e f = subst (λ k. Fits k cs) e f

  buffers_first :
      (res : Code) (flags : ℕ) (cs : List Cqe) (rest : List ℕ)
      → buffers (cqe res flags ∷ cs) ++ rest
        ≡ (if has_buffer flags then buffer_of flags ∷ (buffers cs ++ rest) else buffers cs ++ rest)
  buffers_first res flags cs rest = both (has_buffer flags)
    where
      both :
          (b : Bool)
          → (if b then buffer_of flags ∷ buffers cs else buffers cs) ++ rest
            ≡ (if b then buffer_of flags ∷ (buffers cs ++ rest) else buffers cs ++ rest)
      both true = refl
      both false = refl

  deliver_all :
      (cs : List Cqe) (rest : List ℕ) (r : Stream (Receiving U))
      → Fits r.context.pool.size cs
      → IsOrdered r.context.pool (buffers cs ++ rest)
      → Behind r.context.pool rest (deliver (consume wanted decode fn) cs r).context.pool
  unfolding deliver
  deliver_all [] rest r f v = stays r.context.pool rest v
  deliver_all (cqe res flags ∷ cs) rest r f v =
      let r' = result (consume wanted decode fn) (cqe res flags) r in
      let b : Behind r.context.pool (buffers cs ++ rest) r'.context.pool =
        subst (Behind r.context.pool (buffers cs ++ rest)) (result_pool res flags r) (
          result-Behind res flags (buffers cs ++ rest) r.context r.stopped f.0
            (subst (IsOrdered r.context.pool) (buffers_first res flags cs rest) v)) in
      published_later r.context.pool r'.context.pool _ rest b.more b.published b.same_size
        b.same_count
        (deliver_all cs (rest ++ b.more) r'
          (Fits-size r.context.pool.size r'.context.pool.size cs (sym b.same_size) f.1)
          (subst (IsOrdered r'.context.pool) (append_assoc (buffers cs) rest b.more) b.ordered))

-- Hand a round's completions to the consumer of `receive` or `recvmsg`, in a ring whose buffers are in
-- place, when the completions name the buffers that the kernel took, in order, and report no more
-- bytes than a buffer has. Whether the consumer keeps or drops its leases, stops the request or
-- throws, and whether or not its messages can be built, every buffer is accounted for behind it:
-- those that the round did not use are untouched, and those that went back were published behind.
pub deliver-Behind :
    {U M : Type 0} (wanted : Code → Bool) (decode : Chunk → Result M)
    (fn : U → M → U × List ℕ × Reply) (cs : List Cqe) (rest : List ℕ) (s : Receiving U)
    → Fits s.pool.size cs
    → IsOrdered s.pool (buffers cs ++ rest)
    → Behind s.pool rest (deliver (consume wanted decode fn) cs (fresh s)).context.pool
deliver-Behind wanted decode fn cs rest s f v = deliver_all wanted decode fn cs rest (fresh s) f v
