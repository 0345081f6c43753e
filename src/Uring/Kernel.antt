-- ===== src/Uring/Kernel.antt =====
-- The driver of uring.cpp and what the kernel owes it: submissions, cancellations and completions in
-- any order.
use snowy.Prelude.{
  ℕ, suc, ◌+◌, ◌≡◌, Bool, true, false, not, ◌&&◌, Option, none, some, List, [], ◌∷◌, ◌++◌, ◌==◌,
  if◌then◌else◌,
}
use snowy.Uring.{Request, Driver, Reply, update, submit, cancel, canceled, resulted}

-- The driver and the kernel: which requests it still owes a last completion, and which
-- cancellations it still owes theirs. `submitted` is every submission so far.
pub record System : Type 0 where
  pub driver : Driver
  pub owes_result : ℕ → Bool
  pub owes_cancel : ℕ → Bool
  pub submitted : List ℕ

pub data Event : Type 0 where
  -- A new request, linked by its caller; the loop's cancellation of one; a completion of the kernel.
  submits : ℕ → Request → Event
  cancels : ℕ → Event
  results : ℕ → Bool → Reply → Event
  acknowledges : ℕ → Event

abbrev pub submitted_as : System → ℕ → Option Driver → System
submitted_as s id none = s
submitted_as s id (some d) = record s {
  driver = d;
  owes_result = update s.owes_result id true;
  submitted = s.submitted ++ (id ∷ []);
}

-- The kernel completes each submission with any number of entries that more will follow and one
-- last entry, and each cancellation with one entry. The loop cancels a linked request once. An event
-- that cannot happen now changes nothing.
unfoldable pub step : System → Event → System
step s (submits id op) = if s.driver.linked id then s else submitted_as s id (submit s.driver id op)
step s (cancels id) =
    if s.driver.linked id && not (s.driver.request id).cancel_sent
    then record s { driver = cancel s.driver id; owes_cancel = update s.owes_cancel id true }
    else s
step s (results id more reply) =
    if s.owes_result id
    then record s {
      driver = resulted s.driver id more reply;
      owes_result = update s.owes_result id more;
    }
    else s
step s (acknowledges id) =
    if s.owes_cancel id
    then record s { driver = canceled s.driver id; owes_cancel = update s.owes_cancel id false }
    else s

unfoldable pub run : System → List Event → System
run s [] = s
run s (e ∷ es) = run (step s e) es

abbrev pub count : ℕ → List ℕ → ℕ
count id [] = 0
count id (j ∷ js) = if j == id then suc (count id js) else count id js

-- One request: what the driver has noted of it is what the kernel owes, and it is not kept when
-- nothing is owed.
pub record Tracked (linked done canceling sent owes_r owes_c : Bool) (subs comps : ℕ) : Type 0 where
  pub result_noted : linked ≡ true → owes_r ≡ not done
  pub cancel_noted : linked ≡ true → owes_c ≡ canceling
  pub waits : linked ≡ true → done ≡ true → canceling ≡ true
  pub sent_first : linked ≡ true → canceling ≡ true → sent ≡ true
  pub free_result : linked ≡ false → owes_r ≡ false
  pub free_cancel : linked ≡ false → owes_c ≡ false
  pub counted : subs ≡ comps + (if linked then 1 else 0)

abbrev pub TracksAt : System → ℕ → Type 0
TracksAt s id =
    Tracked (s.driver.linked id) (s.driver.request id).done (s.driver.request id).canceling
      (s.driver.request id).cancel_sent (s.owes_result id) (s.owes_cancel id) (count id s.submitted)
      (count id s.driver.completed)

abbrev pub Tracks : System → Type 0
Tracks s = (id : ℕ) → TracksAt s id
