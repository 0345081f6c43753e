-- ===== src/Multishot/Periodic.antt =====
-- include/snowy/uring_multi.hpp: periodic timeouts (`ticks`).
use snowy.Prelude.{
  ℕ, ◌+◌, ◌-◌, ◌%◌, ◌^◌, Bool, not, ◌&&◌, ◌||◌, List, [], ◌∷◌, ltb, ◌==◌, if◌then◌else◌,
}
use snowy.Fault.{invalid_argument, Result, ok, ◌>>◌, throw_if, Code, count, failed}
use snowy.Multishot.{
  Reply, proceed, Stream, Next, again, Shot, onward, shoot, settle, timer_expired,
}

-- `received` is of 32 bits.
pub record Ticking (U : Type 0) : Type 0 where
  pub user : U
  pub received : ℕ

module _ {U : Type 0} (fn : U → U × Reply) where
  abbrev pub ticked : Ticking U → Ticking U × Reply
  ticked s = (record { user = (fn s.user).0; received = (s.received + 1) % 2 ^ 32 }, (fn s.user).1)

  abbrev pub tick : Ticking U → Bool → Code → ℕ → Ticking U × Reply
  tick s stopped (count n) flags = (s, proceed)
  tick s stopped (failed e) flags =
      if e == timer_expired && not stopped then ticked s else (s, proceed)

  -- `while (!count || received < count)`.
  abbrev pub is_complete : ℕ → Stream (Ticking U) → Bool
  is_complete limit r = not (limit == 0 || ltb r.context.received limit)

  -- The count of the request, `count ? count - received : 0`, of 32 bits.
  abbrev pub request_count : ℕ → ℕ → ℕ
  request_count limit received = if limit == 0 then 0 else (limit + 2 ^ 32 - received) % 2 ^ 32

  -- The loop over the requests. Each kernel answers a request by its count.
  unfoldable pub tick_rounds : ℕ → List (ℕ → Shot) → Ticking U → Ticking U × Next
  tick_rounds limit [] s = (s, again)
  tick_rounds limit (kernel ∷ kernels) s =
      let r = shoot tick (kernel (request_count limit s.received)) s in
      onward (λ s'. tick_rounds limit kernels s') r.context
        (settle (λ e. e == timer_expired) (is_complete limit) r)

  -- The interval is a signed number of nanoseconds, here its positive part.
  unfoldable pub ticks : ℕ → ℕ → List (ℕ → Shot) → U → Result (Ticking U × Next)
  ticks interval limit kernels u = do
    throw_if (interval == 0) invalid_argument
    ok (tick_rounds limit kernels (record { user = u; received = 0 }))
