-- ===== src/Uring/Track.antt =====
-- The requests of uring.cpp against the completions that the kernel owes: a request is retired only
-- when no completion that names it is still to come.
use snowy.Prelude.{
  ℕ, ◌+◌, ◌≡◌, refl, sym, fun_ext, ap, ap₂, ◌∙◌, subst, Bool, true, false, not, ◌&&◌, ◌||◌, List,
  [], ◌∷◌, ◌==◌, ==_eq, if◌then◌else◌, if_cases, arith, inl, inr,
}
use snowy.Uring.{apply_result, Driver, Reply, update, retire, set_request, canceled, resulted}
use snowy.Uring.Kernel.{
  System, Event, submits, cancels, results, acknowledges, step, run, count, Tracks,
}
use snowy.Uring.Linked.{linked_by, submitted-Tracks, canceling-Tracks, retired-Tracks, kept-Tracks}

update_id : (f : ℕ → Bool) (i : ℕ) → update f i (f i) ≡ f
unfolding update
update_id f i =
    fun_ext
      (λ j. if_cases (λ x. x ≡ f j) (i == j) (f i) (f j) (λ e. ap f (==_eq i j e)) (λ _. refl))

not-not : (b : Bool) → b ≡ not (not b)
not-not true = refl
not-not false = refl

last_of :
    (more canceling : Bool)
    → not more && not canceling ≡ true
    → (more ≡ false) × (canceling ≡ false)
last_of more canceling e = ground arith

not_last :
    (more canceling : Bool) → not more && not canceling ≡ false → not more ≡ true → canceling ≡ true
not_last more canceling e h = ground arith

resulted-Tracks :
    (s : System) (id : ℕ) (more : Bool) (reply : Reply)
    → s.owes_result id ≡ true
    → Tracks s
    → Tracks (record s {
      driver = resulted s.driver id more reply;
      owes_result = update s.owes_result id more;
    })
unfolding resulted
resulted-Tracks s id more reply owed t =
    let old = s.driver.request id in
    let op = apply_result old.code reply (record old { done = not more }) in
    let l = linked_by s id t (inl owed) in
    let noted = (t id).cancel_noted l in
    subst
      (λ f. Tracks (record s {
        driver = resulted s.driver id more reply;
        owes_result = update s.owes_result id more;
        owes_cancel = f;
      }))
      (update_id s.owes_cancel id)
      (if_cases
        (λ d. Tracks (record s {
          driver = d;
          owes_result = update s.owes_result id more;
          owes_cancel = update s.owes_cancel id (s.owes_cancel id);
        }))
        (not more && not old.canceling) (retire (set_request s.driver id op) id)
        (set_request s.driver id op)
        (λ e.
          let (m, c) = last_of more old.canceling e in
          retired-Tracks s id op more (s.owes_cancel id) l m (noted ∙ c) t)
        (λ e.
          kept-Tracks s id op more (s.owes_cancel id) l (not-not more) noted
            (not_last more old.canceling e) ((t id).sent_first l) t))

acknowledged-Tracks :
    (s : System) (id : ℕ)
    → s.owes_cancel id ≡ true
    → Tracks s
    → Tracks
        (record s { driver = canceled s.driver id; owes_cancel = update s.owes_cancel id false })
unfolding canceled
acknowledged-Tracks s id owed t =
    let old = s.driver.request id in
    let op = record old { canceling = false } in
    let l = linked_by s id t (inr owed) in
    let noted = (t id).result_noted l in
    subst
      (λ f. Tracks (record s {
        driver = canceled s.driver id;
        owes_result = f;
        owes_cancel = update s.owes_cancel id false;
      }))
      (update_id s.owes_result id)
      (if_cases
        (λ d. Tracks (record s {
          driver = d;
          owes_result = update s.owes_result id (s.owes_result id);
          owes_cancel = update s.owes_cancel id false;
        }))
        old.done (retire (set_request s.driver id op) id) (set_request s.driver id op)
        (λ e. retired-Tracks s id op (s.owes_result id) false l (noted ∙ ap not e) refl t)
        (λ e.
          kept-Tracks s id op (s.owes_result id) false l noted refl (λ h. absurd (cc (h, e)))
            (λ h. absurd (cc)) t))

both_true : (a b : Bool) → a && not b ≡ true → (a ≡ true) × (b ≡ false)
both_true a b e = ground arith

step-Tracks : (s : System) (e : Event) → Tracks s → Tracks (step s e)
unfolding step
step-Tracks s (submits id op) t =
    if_cases Tracks (s.driver.linked id) s _ (λ _. t) (λ e. submitted-Tracks s id op e t)
step-Tracks s (cancels id) t =
    if_cases Tracks (s.driver.linked id && not (s.driver.request id).cancel_sent) _ s
      (λ e. let (l, u) = both_true _ _ e in canceling-Tracks s id l u t) (λ _. t)
step-Tracks s (results id more reply) t =
    if_cases Tracks (s.owes_result id) _ s (λ e. resulted-Tracks s id more reply e t) (λ _. t)
step-Tracks s (acknowledges id) t =
    if_cases Tracks (s.owes_cancel id) _ s (λ e. acknowledged-Tracks s id e t) (λ _. t)

run-Tracks : (s : System) (es : List Event) → Tracks s → Tracks (run s es)
unfolding run
run-Tracks s [] t = t
run-Tracks s (e ∷ es) t = run-Tracks (step s e) es (step-Tracks s e t)

-- Nothing submitted, nothing owed.
abbrev pub idle : Driver → System
idle d = record {
  driver = record d { linked = λ id. false; completed = [] };
  owes_result = λ id. false;
  owes_cancel = λ id. false;
  submitted = [];
}

idle-Tracks : (d : Driver) → Tracks (idle d)
idle-Tracks d id = record {
  result_noted = λ h. absurd (cc);
  cancel_noted = λ h. absurd (cc);
  waits = λ h. absurd (cc);
  sent_first = λ h. absurd (cc);
  free_result = λ _. refl;
  free_cancel = λ _. refl;
  counted = omega arith;
}

-- A request stands in the loop's list as long as the kernel owes a completion that names it, and no
-- longer, and it has been retired as often as it was submitted, once less while it stands there.
abbrev pub Accounted : System → ℕ → Type 0
Accounted s id =
    (s.driver.linked id ≡ s.owes_result id || s.owes_cancel id)
    × (count id s.submitted ≡ count id s.driver.completed + (if s.driver.linked id then 1 else 0))

owed_while :
    (l d c ro co : Bool)
    → (l ≡ true → ro ≡ not d)
    → (l ≡ true → co ≡ c)
    → (l ≡ true → d ≡ true → c ≡ true)
    → (l ≡ false → ro ≡ false)
    → (l ≡ false → co ≡ false)
    → l ≡ ro || co
owed_while true true c ro co a b w fr fc = sym (ap₂ (λ x y. x || y) (a refl) (b refl ∙ w refl refl))
owed_while true false c ro co a b w fr fc = sym (ap (λ x. x || co) (a refl))
owed_while false d c ro co a b w fr fc = sym (ap₂ (λ x y. x || y) (fr refl) (fc refl))

-- Whatever is submitted and canceled and in whatever order the kernel answers, a request is kept as
-- long as the kernel owes it a completion, its own or that of its cancellation, and no longer: no
-- completion names a request that was retired. Each submission is retired once.
pub run-Accounted : (d : Driver) (es : List Event) (id : ℕ) → Accounted (run (idle d) es) id
run-Accounted d es id =
    let t = run-Tracks (idle d) es (idle-Tracks d) id in
    (
      owed_while _ _ _ _ _ t.result_noted t.cancel_noted t.waits t.free_result t.free_cancel,
      t.counted,
    )
