-- ===== src/Syscalls/Tests.antt =====
-- The checks of uring_extra.cpp at a concrete input.
use snowy.Prelude.{◌≡◌, ◌↔◌, refl, true, false, none, some, List, [], ◌∷◌}
use snowy.Syscalls.{Vector, vectors, scan, splice, own, below}
use snowy.Syscalls.Vectors.{InRange, vectors_iff}

abbrev pair : List Vector
pair = record { base = some 64; len = 512 } ∷ record { base = none; len = 0 } ∷ []

pair_passes : vectors pair 4096 ≡ true
unfolding vectors scan
pair_passes = refl

pair_too_far : vectors pair 9223372036854775800 ≡ false
unfolding vectors scan
pair_too_far = refl

before_the_start : splice 3 below 4 own 100 0 ≡ none
unfolding splice
before_the_start = refl

vectors_iff_example : (vectors pair 4096 ≡ true) ↔ InRange pair 4096
vectors_iff_example = vectors_iff pair 4096
