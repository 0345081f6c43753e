-- ===== src/File/Tests.antt =====
-- `write_all` of file.cpp at a concrete input.
use snowy.Prelude.{ℕ, ◌≡◌, refl, ap, Bool, false, List, [], ◌∷◌, length, min, arith}
use snowy.File.{Reply, moved, Contents, transfer, write_bytes, write_loop, write_all}
use snowy.File.Written.{IsHonest, Prefix, write_all-Prefix}

-- A system call that takes two bytes at a time.
abbrev two_at_a_time : ℕ → List ℕ → Reply
two_at_a_time offset bytes = moved (min 2 (length bytes))

abbrev size_of : Reply → ℕ
size_of (moved n) = n
size_of _ = 0

two-IsHonest : IsHonest two_at_a_time
two-IsHonest offset n bytes e = omega (arith, ap size_of e)

abbrev never : ℕ → Bool
never offset = false

abbrev blank : Contents
blank p = 0

last_byte : (write_all two_at_a_time never blank (4 ∷ 5 ∷ 6 ∷ []) 10).1 12 ≡ 6
unfolding write_all write_loop transfer write_bytes
last_byte = refl

write_all-Prefix_example :
    Prefix blank (4 ∷ 5 ∷ 6 ∷ []) 10 (write_all two_at_a_time never blank (4 ∷ 5 ∷ 6 ∷ []) 10)
write_all-Prefix_example =
    write_all-Prefix two_at_a_time never two-IsHonest blank (4 ∷ 5 ∷ 6 ∷ []) 10
