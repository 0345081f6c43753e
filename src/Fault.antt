-- ===== src/Fault.antt =====
-- What the ring's extensions of src/uring_ops.cpp, src/uring_net.cpp and src/uring.cpp throw, with
-- results as values, and the return codes of liburing.
use snowy.Prelude.{ℕ, Bool, true, false}

-- The exceptions; `system_error` carries the positive `errno`.
pub data Fault : Type 0 where
  invalid_argument out_of_range logic_error runtime_error bad_alloc : Fault
  system_error : ℕ → Fault

-- What a call gives: it throws, or it has a value.
pub data Result {ℓ} (V : Type ℓ) : Type ℓ where
  err : Fault → Result V
  ok : V → Result V

-- The code behind a call that may throw.
infixl 5 ◌>>=◌
abbrev pub ◌>>=◌ {ℓ μ} : {V : Type ℓ} {W : Type μ} → Result V → (V → Result W) → Result W
◌>>=◌ (err fault) rest = err fault
◌>>=◌ (ok v) rest = rest v

-- The code behind a check.
infixl 5 ◌>>◌
abbrev pub ◌>>◌ {ℓ} : {V : Type ℓ} → Result (Unit {0}) → Result V → Result V
◌>>◌ (err fault) rest = err fault
◌>>◌ (ok passed) rest = rest

-- `if (test) throw fault;`
abbrev pub throw_if : Bool → Fault → Result (Unit {0})
throw_if true e = err e
throw_if false e = ok tt

abbrev pub is_ok {ℓ} : {A : Type ℓ} → Result A → Bool
is_ok (ok a) = true
is_ok (err e) = false

-- An `int` that is a count, or a negated `errno`.
pub data Code : Type 0 where
  count failed : ℕ → Code

-- `verify`.
abbrev pub verify : Code → Result ℕ
verify (count n) = ok n
verify (failed e) = err (system_error e)

-- `loop::check`, told whether the thread is the owner.
abbrev pub check : Bool → Result (Unit {0})
check true = ok tt
check false = err logic_error
