-- ===== src/Multishot/Due.antt =====
-- The calls of its consumer that are due to `ticks` of include/snowy/uring_multi.hpp.
use snowy.Prelude.{
  ℕ, zero, suc, ◌+◌, ◌-◌, ◌<◌, ◌≤◌, ◌≡◌, ◌≢◌, Bool, false, ◌&&◌, ◌||◌, List, [], ◌∷◌, ltb, ◌==◌,
  if◌then◌else◌,
}
use snowy.Fault.{system_error, Result, ok, err, count, failed}
use snowy.Multishot.{
  Reply, Cqe, cqe, Next, returned, again, threw, Shot, early, completions, timer_expired,
}
use snowy.Multishot.Periodic.{Ticking}

module _ {U : Type 0} (fn : U → U × Reply) where
  -- The state of the consumer after some calls.
  abbrev pub iterate : ℕ → U → U
  iterate zero u = u
  iterate (suc n) u = (fn (iterate n u)).0

-- The expirations that a round reports.
abbrev pub expirations : List Cqe → ℕ
expirations [] = 0
expirations (cqe (count n) k ∷ cs) = expirations cs
expirations (cqe (failed e) k ∷ cs) = (if e == timer_expired then 1 else 0) + expirations cs

-- The error that the last completion with one leaves, if any does.
abbrev pub last_error : List Cqe → ℕ → ℕ
last_error [] e = e
last_error (cqe (count n) k ∷ cs) e = last_error cs e
last_error (cqe (failed x) k ∷ cs) e = last_error cs x

abbrev pub reported : Shot → ℕ
reported early = 0
reported (completions cs) = expirations cs

-- The request ended without an error, or with the expiry of its timer.
abbrev pub goes_on : Shot → Bool
goes_on early = false
goes_on (completions cs) = last_error cs 0 == 0 || last_error cs 0 == timer_expired

-- The kernel reports no more expirations than a request asks for.
abbrev pub Allowed : (ℕ → Shot) → Type 0
Allowed kernel = (n : ℕ) → 0 < n → reported (kernel n) ≤ n

-- The expirations that the requests report, each for what is left of the limit, the last of them being the
-- first that fails or that reaches the limit.
abbrev pub due : ℕ → List (ℕ → Shot) → ℕ → ℕ
due limit [] calls = calls
due limit (kernel ∷ kernels) calls =
    let shot = kernel (limit - calls) in
    let rest = due limit kernels (calls + reported shot) in
    if goes_on shot && ltb (calls + reported shot) limit then rest else calls + reported shot

module _ {U : Type 0} (fn : U → U × Reply) (u : U) where
  -- The calls of the consumer are counted, and made one behind the other on its state. The task returns with
  -- all of them made, throws an error of the request, or is still waiting.
  abbrev pub EndsAt : ℕ → ℕ → Ticking U × Next → Type 0
  EndsAt limit calls (s, next) =
      (s.received ≡ calls) × (s.received ≤ limit) × (s.user ≡ iterate fn calls u) × (elim next [
        | returned ↦ calls ≡ limit
        | again ↦ Unit
        | threw f ↦ (e : ℕ) × (f ≡ system_error e) × (e ≢ timer_expired)
      ])

  abbrev pub Ended : ℕ → ℕ → Result (Ticking U × Next) → Type 0
  Ended limit calls (err f) = ⊥
  Ended limit calls (ok x) = EndsAt limit calls x
