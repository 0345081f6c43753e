-- ===== src/Chain/Links.antt =====
-- Which chains are accepted, and how their entries are linked.
use snowy.Prelude.{
  ℕ, zero, suc, ◌+◌, ◌<◌, ◌≡◌, refl, sym, ◌∙◌, ap, ap₂, Bool, true, false, not, ◌&&◌, ◌||◌, List,
  [], ◌∷◌, ltb, if◌then◌else◌, length, get_or, is_empty, arith,
}
use snowy.Fault.{invalid_argument, Result, ok, err, ◌>>=◌, ◌>>◌, throw_if}
use snowy.Registered.Ops.{
  Sqe, Call, openat_direct, close_direct, socket_direct, accept_direct, recv, send, send_zc, other,
}
use snowy.Chain.{Link, no_links, soft, hard, is_single_shot, has_bad_flags, linked, build}

-- The opcodes that complete once and give the caller nothing to keep.
abbrev pub may_chain : Call → Bool
may_chain (openat_direct slot path flags mode) = false
may_chain (close_direct slot) = false
may_chain (socket_direct domain kind protocol slot) = false
may_chain (accept_direct fd slot) = false
may_chain (recv fd region flags) = false
may_chain (send fd region flags) = false
may_chain (send_zc fd region flags) = false
may_chain (other code) = false
may_chain _ = true

-- Not allowed: to skip a completion, to select a buffer, and to be linked by the caller.
abbrev pub is_unflagged : Sqe → Bool
is_unflagged s = not s.skip_success && not s.buffer_select && not s.io_link && not s.io_hardlink

abbrev pub acceptable : Sqe → Bool
acceptable s = may_chain s.call && is_unflagged s

abbrev pub is_soft : Link → Bool
is_soft soft = true
is_soft _ = false

abbrev pub is_hard : Link → Bool
is_hard hard = true
is_hard _ = false

abbrev pub all_acceptable : List Sqe → Bool
all_acceptable [] = true
all_acceptable (s ∷ rest) = acceptable s && all_acceptable rest

abbrev pub any_drains : List Sqe → Bool
any_drains [] = false
any_drains (s ∷ rest) = s.io_drain || any_drains rest

-- The entry at a place of a chain: a soft order sets the one flag, a hard order the other, unless no
-- entry follows.
abbrev pub placed : Link → List Sqe → ℕ → Sqe → Sqe
placed order entries i s = record s {
  io_link = s.io_link || (is_soft order && ltb (i + 1) (length entries));
  io_hardlink = s.io_hardlink || (is_hard order && ltb (i + 1) (length entries));
}

abbrev pub Chained : Link → List Sqe → Result (List Sqe × Bool) → Type 0
Chained order entries (err e) = (e ≡ invalid_argument) × (all_acceptable entries ≡ false)
Chained order entries (ok (sqes, drain)) =
    (all_acceptable entries ≡ true)
    × (drain ≡ any_drains entries)
    × (length sqes ≡ length entries)
    × ((i : ℕ) (d : Sqe)
        → i < length entries
        → get_or sqes i d ≡ placed order entries i (get_or entries i d))

or_false : (b c : Bool) → b || (c && false) ≡ b
or_false b c = ground arith

or_true : (b : Bool) → b || true ≡ true
or_true b = ground arith

or_neither : (b : Bool) → b || false ≡ b
or_neither b = ground arith

abbrev with_links : Sqe → Bool → Bool → Sqe
with_links s a b = record s { io_link = a; io_hardlink = b }

-- The last entry is the one that was given, and `linked` sets the flags of the others.
last_placed :
    (order : Link) (s : Sqe)
    → s ≡ record s {
      io_link = s.io_link || (is_soft order && false);
      io_hardlink = s.io_hardlink || (is_hard order && false);
    }
last_placed order s =
    ap₂ (with_links s) (sym (or_false s.io_link (is_soft order)))
      (sym (or_false s.io_hardlink (is_hard order)))

linked_placed :
    (order : Link) (s : Sqe)
    → linked order s ≡ record s {
      io_link = s.io_link || (is_soft order && true);
      io_hardlink = s.io_hardlink || (is_hard order && true);
    }
linked_placed no_links s =
    ap₂ (with_links s) (sym (or_neither s.io_link)) (sym (or_neither s.io_hardlink))
linked_placed soft s = ap₂ (with_links s) (sym (or_true s.io_link)) (sym (or_neither s.io_hardlink))
linked_placed hard s = ap₂ (with_links s) (sym (or_neither s.io_link)) (sym (or_true s.io_hardlink))

first_placed :
    (order : Link) (s : Sqe) (rest : List Sqe)
    → (if is_empty rest then s else linked order s) ≡ placed order (s ∷ rest) 0 s
first_placed order s [] = last_placed order s
first_placed order s (r ∷ rest) =
    linked_placed order s
    ∙ ap
        (λ b.
          with_links s (s.io_link || (is_soft order && b)) (s.io_hardlink || (is_hard order && b)))
        more
  where
    more : true ≡ ltb (0 + 1) (length (s ∷ r ∷ rest))
    more = ground arith

next_placed :
    (order : Link) (s : Sqe) (rest : List Sqe) (i : ℕ) (x : Sqe)
    → placed order rest i x ≡ placed order (s ∷ rest) (suc i) x
next_placed order s rest i x = ground arith

placed_behind :
    (order : Link) (s : Sqe) (rest sqes : List Sqe)
    → ((i : ℕ) (d : Sqe)
        → i < length rest
        → get_or sqes i d ≡ placed order rest i (get_or rest i d))
    → (i : ℕ) (d : Sqe) → i < length (s ∷ rest)
    → get_or ((if is_empty rest then s else linked order s) ∷ sqes) i d
      ≡ placed order (s ∷ rest) i (get_or (s ∷ rest) i d)
placed_behind order s rest sqes ih zero d h = first_placed order s rest
placed_behind order s rest sqes ih (suc i) d h =
    ih i d (omega arith) ∙ next_placed order s rest i (get_or rest i d)

Chained-more :
    (order : Link) (s : Sqe) (rest : List Sqe) (r : Result (List Sqe × Bool)) (single bad : Bool)
    → single ≡ is_single_shot s.call
    → bad ≡ has_bad_flags s
    → Chained order rest r
    → Chained order (s ∷ rest) (
        throw_if (not single) invalid_argument
        >> (throw_if bad invalid_argument
            >> (r >>= λ (x : List Sqe × Bool).
                ok ((if is_empty rest then s else linked order s) ∷ x.0, s.io_drain || x.1))))
Chained-more order s rest r false bad p q h = (refl, ground arith)
Chained-more order s rest r true true p q h = (refl, ground arith)
Chained-more order s rest (err e) true false p q h = (h.0, ground (arith, h.1))
Chained-more order s rest (ok (sqes, drain)) true false p q h = (
  ground (arith, h.0),
  ap (λ b. s.io_drain || b) h.1,
  ap suc h.2,
  placed_behind order s rest sqes h.3,
)

-- A chain is built exactly when every entry is a `nop`, a plain, vectored or fixed read or write, an
-- `fsync`, a `fallocate` or a `splice`, and none skips its completion, selects a buffer or has a
-- link flag already, and is refused with `invalid_argument` otherwise. When it is built, it drains if an
-- entry does, it has as many entries as were given, and each is the one given at its place, but
-- that every entry except the last has `IOSQE_IO_LINK` in a soft order and `IOSQE_IO_HARDLINK` in a
-- hard one.
pub build-Chained :
    (order : Link) (entries : List Sqe) → Chained order entries (build order entries)
unfolding build
build-Chained order [] = (refl, refl, refl, λ i d h. absurd (omega arith))
build-Chained order (s ∷ rest) =
    Chained-more order s rest (build order rest) (is_single_shot s.call) (has_bad_flags s) refl refl
      (build-Chained order rest)
