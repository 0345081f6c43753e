-- ===== src/File/Handles/Made.antt =====
-- Files that are opened and moved (src/file.cpp).
use snowy.Prelude.{
  ℕ, ◌≡◌, refl, sym, ap, ◌∙◌, Bool, true, false, not, Option, none, some, List, [], ◌∷◌, ◌==◌,
  ==_eq, if_cases, is_none, length, set, arith,
}
use snowy.Fault.{
  Result, err, ok, ◌>>◌, throw_if, Code, count, failed, logic_error, invalid_argument,
}
use snowy.Task.Handles.{some_below, one, holds-append, holds-set}
use snowy.File.Handles.{
  Mode, Flags, fd_at, inspect, inspected, constructed, moved_behind, create, moved, move_from,
  open_flags, is_invalid_path,
}
use snowy.File.Handles.Lifetime.{World, is_used, made, Sound}
use snowy.File.Handles.Released.{
  get_or-length, Held-append, grounded, Held-set, update-zero, opened-Owned, closed_again,
}

pub inspected-Sound :
    (w : World) (fd : ℕ) (r : Result (Unit {0}))
    → w.files.is_open fd ≡ false
    → Sound w
    → Sound (record w { files = (inspected fd w.files r).1 })
inspected-Sound w fd (err e) f h = (λ k. h.0 k ∙ ap one (sym (closed_again w.files fd k f)), h.1)
inspected-Sound w fd (ok u) f h = (
  opened-Owned w.files fd f h.0,
  (
    λ k.
        update-zero w.files.active (length w.files.fds) k w.flights
          (grounded w.files.fds (length w.files.fds) w.flights (get_or-length w.files.fds) h.1.1)
          (h.1.0 k),
    Held-append w.files.fds (some fd ∷ []) w.flights h.1.1,
  ),
)

pub create-Sound :
    (on_owner : Bool) (path : List ℕ) (mode : Mode) (direct : Bool) (open_call : Flags → Code)
    (stat : Option ℕ) (regular : Bool) (attached : Result (Unit {0})) (w : World)
    → is_used (open_call (open_flags mode direct)) w.files ≡ false
    → Sound w
    → Sound (record w {
      files = (create on_owner path mode direct open_call stat regular attached w.files).1;
    })
unfolding create
create-Sound false path mode direct open_call stat regular attached w f h = h
create-Sound true path mode direct open_call stat regular attached w f h =
    tried (is_invalid_path path) (open_call (open_flags mode direct)) f
  where
    tried :
        (bad : Bool) (c : Code)
        → is_used c w.files ≡ false
        → Sound (record w {
          files =
              (constructed
                (throw_if bad invalid_argument)
                c
                (inspect stat regular attached)
                w.files).1;
        })
    tried true c g = h
    tried false (failed e) g = h
    tried false (count fd) g = inspected-Sound w fd (inspect stat regular attached) g h

pub made-Sound :
    (on_owner : Bool) (path : List ℕ) (mode : Mode) (direct : Bool) (open_call : Flags → Code)
    (stat : Option ℕ) (regular : Bool) (attached : Result (Unit {0})) (w : World)
    → Sound w
    → Sound (made on_owner path mode direct open_call stat regular attached w)
made-Sound on_owner path mode direct open_call stat regular attached w h =
    if_cases Sound (is_used (open_call (open_flags mode direct)) w.files) w
      (record w {
        files = (create on_owner path mode direct open_call stat regular attached w.files).1;
      })
      (λ _. h) (λ e. create-Sound on_owner path mode direct open_call stat regular attached w e h)

pub moved-Sound :
    (w : World) (i fd : ℕ)
    → fd_at w.files i ≡ some fd
    → w.files.active i ≡ 0
    → Sound w
    → Sound (record w { files = moved i w.files })
moved-Sound w i fd e a h = (
  λ k. omega (
    arith,
    h.0 k,
    holds-append k (set w.files.fds i none) (fd_at w.files i ∷ []),
    holds-set k w.files.fds i none (some_below w.files.fds i fd e),
  ),
  (
    λ k.
        update-zero w.files.active (length w.files.fds) k w.flights
          (grounded w.files.fds (length w.files.fds) w.flights (get_or-length w.files.fds) h.1.1)
          (h.1.0 k),
    Held-append (set w.files.fds i none) (fd_at w.files i ∷ []) w.flights
        (Held-set w.files.fds i w.flights (sym (h.1.0 i) ∙ a) h.1.1),
  ),
)

pub move_from-Sound :
    (on_owner : Bool) (i : ℕ) (w : World)
    → Sound w
    → Sound (record w { files = (move_from on_owner i w.files).1 })
unfolding move_from
move_from-Sound false i w h = h
move_from-Sound true i w h = tried (fd_at w.files i) (w.files.active i == 0) refl refl
  where
    tried :
        (x : Option ℕ) (b : Bool)
        → fd_at w.files i ≡ x
        → w.files.active i == 0 ≡ b
        → Sound (record w {
          files =
              (moved_behind
                (throw_if (is_none x) logic_error >> throw_if (not b) logic_error)
                i
                w.files).1;
        })
    tried none b e a = h
    tried (some fd) false e a = h
    tried (some fd) true e a = moved-Sound w i fd e (==_eq (w.files.active i) 0 a) h
