-- ===== src/ZeroCopy/Reported.antt =====
-- What the user of a send without copies learns, and when.
use snowy.Prelude.{
  ◌≡◌, refl, ap, ◌∙◌, Bool, true, false, not, ◌&&◌, ◌||◌, List, [], ◌∷◌, if◌then◌else◌, arith,
}
use snowy.Fault.{ok, err, logic_error, Code, count, failed}
use snowy.ZeroCopy.{Send, create, result, retire, start, pending, join}

-- What the kernel and the loop do with the request: a completion, which may be the notification
-- that the buffer is free, and the retirement of the request behind the last.
pub data Event : Type 0 where
  completion : Code → Bool → Event
  retirement : Event

unfoldable pub step : Event → Send → Send
step (completion code notification) s = result code notification s
step retirement s = retire s

unfoldable pub run : List Event → Send → Send
run [] s = s
run (e ∷ es) s = run es (step e s)

abbrev pub is_success : Event → Bool
is_success (completion (count n) notification) = not notification
is_success (completion (failed e) notification) = false
is_success retirement = false

abbrev pub is_primary : Event → Bool
is_primary (completion code notification) = not notification
is_primary retirement = false

abbrev pub is_retirement : Event → Bool
is_retirement (completion code notification) = false
is_retirement retirement = true

abbrev pub any : (Event → Bool) → List Event → Bool
any p [] = false
any p (e ∷ es) = p e || any p es

-- The events of a send against what has happened to it.
pub record IsReported (es : List Event) (before after : Send) : Type 0 where
  pub sent : after.sent ≡ before.sent || (any is_success es || any is_retirement es)
  pub released : after.released ≡ before.released || any is_retirement es
  pub reserved : after.reserved ≡ before.reserved && not (any is_primary es)
  pub same_started : after.started ≡ before.started
  pub free : before.busy ≡ before.reserved → after.busy ≡ after.reserved

step-IsReported : (e : Event) (s : Send) → IsReported (e ∷ []) s (step e s)
unfolding step result retire
step-IsReported (completion (count n) false) s = ground arith
step-IsReported (completion (count n) true) s = ground arith
step-IsReported (completion (failed e) false) s = ground arith
step-IsReported (completion (failed e) true) s = ground arith
step-IsReported retirement s = ground arith

joined :
    (e : Event) (es : List Event) (s t u : Send)
    → IsReported (e ∷ []) s t
    → IsReported es t u
    → IsReported (e ∷ es) s u
joined e es s t u a b = record {
  sent = ground (arith, a.sent, b.sent);
  released = ground (arith, a.released, b.released);
  reserved = ground (arith, a.reserved, b.reserved);
  same_started = b.same_started ∙ a.same_started;
  free = λ h. b.free (a.free h);
}

run-IsReported : (es : List Event) (s : Send) → IsReported es s (run es s)
unfolding run
run-IsReported [] s = record {
  sent = ground arith;
  released = ground arith;
  reserved = ground arith;
  same_started = refl;
  free = λ h. h;
}
run-IsReported (e ∷ es) s =
    joined e es s (step e s) (run es (step e s)) (step-IsReported e s)
      (run-IsReported es (step e s))

abbrev pub launched : Send
launched = (start true pending create).1

started_state : launched ≡ record create { started = true; busy = true; reserved = true }
unfolding start create
started_state = refl

-- Start a send whose request the ring accepts. Whatever completions follow and in whatever order, the
-- bytes may be read exactly when a completion that is no notification succeeded or the request
-- retired; `join` gives the buffer back exactly when the request retired; and the socket's direction
-- is free again exactly when a completion that is no notification came.
pub launched_reports :
    (es : List Event)
    → ((run es launched).sent ≡ any is_success es || any is_retirement es)
      × (join (run es launched) ≡ ok (any is_retirement es))
      × ((run es launched).busy ≡ not (any is_primary es))
unfolding start create join
launched_reports es =
    let r = run-IsReported es launched in
    (
      r.sent,
      ap (λ (b : Bool). if b then ok (run es launched).released else err logic_error) r.same_started
          ∙ ap ok r.released,
      r.free refl ∙ r.reserved,
    )
