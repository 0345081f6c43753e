-- ===== src/Multishot/Tests.antt =====
-- Tests of the requests that complete many times, and the theorems at concrete inputs.
use snowy.Prelude.{
  ℕ, zero, suc, ◌+◌, ◌≡◌, refl, true, false, List, [], ◌∷◌, ◌++◌, ltb, if◌then◌else◌, arith,
}
use snowy.Fault.{runtime_error, ok, count, failed}
use snowy.Multishot.{
  Reply, proceed, halt, raise, Cqe, cqe, returned, Shot, completions, watch, accept, Accepting,
  fresh, called, close, rounds, shoot, deliver, settle,
}
use snowy.Provided.{Provided, Chunk, take, put, available, return_held}
use snowy.Provided.Lease
use snowy.Provided.Lease.{fresh-IsOrdered}
use snowy.Provided.Published.{Behind}
use snowy.Multishot.Receive.{Receiving, await_lease, consume, is_positive, receive, receive_rounds}
use snowy.Multishot.Leases.{deliver-Behind}
use snowy.Multishot.Feed.{expected, watch-expected, accept-expected}
use snowy.Multishot.Periodic.{tick_rounds, ticks}
use snowy.Multishot.Due.{Allowed, Ended}
use snowy.Multishot.Ticks.{ticks-Ended}

-- A consumer that keeps what it sees, wants nothing behind 5, and throws at 9.
abbrev collect_items : List ℕ → ℕ → List ℕ × Reply
collect_items seen n =
    (seen ++ (n ∷ []), if ltb n 5 then proceed else if ltb n 9 then halt else raise runtime_error)

abbrev shots : List Shot
shots =
    completions (cqe (count 1) 0 ∷ cqe (count 2) 0 ∷ [])
    ∷ completions (cqe (count 6) 0 ∷ cqe (count 3) 0 ∷ cqe (failed 125) 0 ∷ [])
    ∷ []

seen_until_six : watch collect_items shots [] ≡ (1 ∷ 2 ∷ 6 ∷ [], returned)
unfolding watch rounds shoot deliver settle
seen_until_six = refl

late_socket_closed :
    accept collect_items shots [] ≡ (record { user = 1 ∷ 2 ∷ 6 ∷ []; closed = 3 ∷ [] }, returned)
unfolding accept rounds shoot deliver settle
late_socket_closed = refl

abbrev count_calls : ℕ → ℕ × Reply
count_calls n = (n + 1, proceed)

-- The first request reports two expirations if it may, each other one at most.
abbrev at_most : ℕ → ℕ → Shot
at_most zero n = completions []
at_most (suc k) zero = completions []
at_most (suc k) (suc zero) = completions (cqe (failed 62) 0 ∷ [])
at_most (suc zero) (suc n) = completions (cqe (failed 62) 0 ∷ [])
at_most (suc (suc k)) (suc (suc n)) = completions (cqe (failed 62) 0 ∷ cqe (failed 62) 0 ∷ [])

abbrev kernels : List (ℕ → Shot)
kernels = at_most 2 ∷ at_most 2 ∷ []

two-Allowed : Allowed (at_most 2)
two-Allowed zero h = absurd (omega arith)
two-Allowed (suc zero) h = omega arith
two-Allowed (suc (suc n)) h = omega arith

three_ticks : ticks count_calls 1000 3 kernels 0 ≡ ok (record { user = 3; received = 3 }, returned)
unfolding ticks tick_rounds shoot deliver settle
three_ticks = refl

watch-expected_example : watch collect_items shots [] ≡ expected collect_items (λ s n. s) [] shots
watch-expected_example = watch-expected collect_items shots []

accept-expected_example :
    accept collect_items shots []
    ≡ expected
        (λ (s : Accepting (List ℕ)). λ fd. called s (collect_items s.user fd))
        close
        (record { user = []; closed = [] })
        shots
accept-expected_example = accept-expected collect_items shots []

ticks-Ended_example : Ended count_calls 0 3 3 (ticks count_calls 1000 3 kernels 0)
ticks-Ended_example =
    ticks-Ended count_calls 0 1000 3 kernels (λ v. refl) (omega arith) (omega arith) (omega arith)
      (two-Allowed, (two-Allowed, tt))

-- A consumer that keeps its first lease, and drops and wants no more with the second.
abbrev keep_first : List ℕ → Chunk → List ℕ × List ℕ × Reply
keep_first [] c = (c.id ∷ [], [], proceed)
keep_first (i ∷ seen) c = (c.id ∷ i ∷ seen, c.id ∷ [], halt)

abbrev arrivals : List Cqe
arrivals = cqe (count 10) 1 ∷ cqe (count 4) 65537 ∷ cqe (count 9) 131073 ∷ cqe (failed 125) 0 ∷ []

abbrev receiving : Receiving (List ℕ)
receiving = record { user = []; pool = Lease.fresh 4 10 }

abbrev one_kept : Provided
one_kept = record {
  count = 4;
  size = 10;
  leases = 1;
  held = true ∷ false ∷ false ∷ false ∷ [];
  next = 1 ∷ 2 ∷ 3 ∷ 1 ∷ [];
  tail = 2;
  is_set = true;
  ring = 0 ∷ 1 ∷ 2 ∷ 3 ∷ 1 ∷ 2 ∷ [];
}

received_two :
    receive keep_first ((completions arrivals, []) ∷ []) receiving
    ≡ (record { user = 1 ∷ 0 ∷ []; pool = one_kept }, returned)
unfolding receive receive_rounds await_lease shoot deliver settle take put return_held available
received_two = refl

deliver-Behind_example :
    Behind receiving.pool
      (3 ∷ [])
      (deliver (consume is_positive (λ c. ok c) keep_first) arrivals (fresh receiving)).context.pool
deliver-Behind_example =
    deliver-Behind is_positive (λ c. ok c) keep_first arrivals (3 ∷ []) receiving
      (omega arith, (omega arith, (omega arith, (omega arith, tt))))
      (fresh-IsOrdered 4 10 (omega arith))
