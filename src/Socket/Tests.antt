-- ===== src/Socket/Tests.antt =====
-- `write_all` of socket.cpp at a concrete input.
use snowy.Prelude.{ℕ, ◌≡◌, refl, ap, Bool, false, none, List, [], ◌∷◌, length, min, arith}
use snowy.File.{Reply, moved}
use snowy.Socket.{write, write_loop, write_all}
use snowy.Socket.Sent.{IsHonest, SentPart, write_all-SentPart}

-- A system call that takes two bytes at a time.
abbrev in_pairs : List ℕ → List ℕ → Reply
in_pairs sent bytes = moved (min 2 (length bytes))

abbrev count_of : Reply → ℕ
count_of (moved n) = n
count_of _ = 0

in_pairs-IsHonest : IsHonest in_pairs
in_pairs-IsHonest sent bytes n e = omega (arith, ap count_of e)

abbrev never : ℕ → Bool
never position = false

all_sent : write_all in_pairs never (1 ∷ []) (4 ∷ 5 ∷ 6 ∷ []) ≡ (none, 1 ∷ 4 ∷ 5 ∷ 6 ∷ [])
unfolding write_all write_loop write
all_sent = refl

write_all-SentPart_example :
    SentPart (1 ∷ []) (4 ∷ 5 ∷ 6 ∷ []) (write_all in_pairs never (1 ∷ []) (4 ∷ 5 ∷ 6 ∷ []))
write_all-SentPart_example =
    write_all-SentPart in_pairs never in_pairs-IsHonest (1 ∷ []) (4 ∷ 5 ∷ 6 ∷ [])
