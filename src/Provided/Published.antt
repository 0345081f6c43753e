-- ===== src/Provided/Published.antt =====
-- Buffers that went back to the ring while others waited there.
use snowy.Prelude.{
  ℕ, ◌≡◌, refl, sym, ap, ◌∙◌, subst, Bool, true, false, List, [], ◌∷◌, ◌++◌, if◌then◌else◌,
  if_cases, get_or, append_assoc, append-nil,
}
use snowy.Provided.{Provided, Turn, put, return_held, consume}
use snowy.Provided.Order.{IsOrdered, put-IsOrdered}

-- A ring after some leases were dropped: they were published behind the others, in that order.
pub record Behind (p : Provided) (queue : List ℕ) (p' : Provided) : Type 0 where
  pub more : List ℕ
  pub ordered : IsOrdered p' (queue ++ more)
  pub published : p'.ring ≡ p.ring ++ more
  pub same_size : p'.size ≡ p.size
  pub same_count : p'.count ≡ p.count

pub stays : (p : Provided) (queue : List ℕ) → IsOrdered p queue → Behind p queue p
stays p queue v = record {
  more = [];
  ordered = subst (IsOrdered p) (sym (append-nil queue)) v;
  published = sym (append-nil p.ring);
  same_size = refl;
  same_count = refl;
}

-- Later steps on a ring to which some buffers were published.
pub published_later :
    (p p' p'' : Provided) (rest more : List ℕ)
    → p'.ring ≡ p.ring ++ more
    → p'.size ≡ p.size
    → p'.count ≡ p.count
    → Behind p' (rest ++ more) p''
    → Behind p rest p''
published_later p p' p'' rest more r s c d = record {
  more = more ++ d.more;
  ordered = subst (IsOrdered p'') (append_assoc rest more d.more) d.ordered;
  published = d.published ∙ ap (λ (l : List ℕ). l ++ d.more) r ∙ append_assoc p.ring more d.more;
  same_size = d.same_size ∙ s;
  same_count = d.same_count ∙ c;
}

pub published_twice :
    (p p' p'' : Provided) (queue : List ℕ)
    → (b : Behind p queue p') → Behind p' (queue ++ b.more) p''
    → Behind p queue p''
published_twice p p' p'' queue b c =
    published_later p p' p'' queue b.more b.published b.same_size b.same_count c

pub put-Behind :
    (p : Provided) (queue : List ℕ) (id : ℕ)
    → get_or p.held id false ≡ true
    → IsOrdered p queue
    → Behind p queue (put id p)
unfolding put
put-Behind p queue id e v = record {
  more = id ∷ [];
  ordered = put-IsOrdered p queue id e v;
  published = refl;
  same_size = refl;
  same_count = refl;
}

pub return_held-Behind :
    (ids : List ℕ) (p : Provided) (queue : List ℕ)
    → IsOrdered p queue
    → Behind p queue (return_held ids p)
unfolding return_held
return_held-Behind [] p queue v = stays p queue v
return_held-Behind (id ∷ ids) p queue v =
    let first =
      if_cases (Behind p queue) (get_or p.held id false) (put id p) p
        (λ e. put-Behind p queue id e v) (λ _. stays p queue v) in
    let mid = if get_or p.held id false then put id p else p in
    published_twice p mid (return_held ids mid) queue first
      (return_held-Behind ids mid (queue ++ first.more) first.ordered)

pub consume-Behind :
    (failing : Bool) (t : Turn) (id : ℕ) (p : Provided) (queue : List ℕ)
    → get_or p.held id false ≡ true
    → IsOrdered p queue
    → Behind p queue (consume failing t id p).1
consume-Behind true t id p queue e v = put-Behind p queue id e v
consume-Behind false t id p queue e v = return_held-Behind t.returns p queue v
