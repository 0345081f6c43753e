-- ===== src/Pool.antt =====
-- include/snowy/pool.hpp and src/pool.cpp: worker threads that take jobs from one queue. The workers
-- run the same function, so the state counts how many are where: before the test of the condition
-- variable, asleep in it, in a job, or returned. A job is known by a number. What needs the mutex is
-- one step; the notification that follows it is another.
pub mod Steps
pub mod Drain
pub mod Job
mod Tests
use snowy.Prelude.{
  ℕ, zero, suc, ◌+◌, ◌-◌, Bool, true, false, not, ◌&&◌, ◌||◌, Option, none, some, List, [], ◌∷◌,
  ◌++◌, is_empty, ◌==◌, if◌then◌else◌,
}

pub record Pool : Type 0 where
  pub jobs : List ℕ
  pub stopping : Bool
  pub polling : ℕ
  pub asleep : ℕ
  pub busy : ℕ
  pub gone : ℕ

-- The pool with all its workers started.
abbrev pub fresh : ℕ → Pool
fresh n = record { jobs = []; stopping = false; polling = n; asleep = 0; busy = 0; gone = 0 }

-- The constructor; it throws for zero threads.
unfoldable pub create : ℕ → Option Pool
create n = if n == 0 then none else some (fresh n)

-- `enqueue` before its notification; none where it throws.
unfoldable pub enqueue : Pool → ℕ → Option Pool
enqueue p job = if p.stopping then none else some (record p { jobs = p.jobs ++ (job ∷ []) })

-- `close` before its notification.
unfoldable pub close : Pool → Pool
close p = record p { stopping = true }

unfoldable pub notify_one : Pool → Pool
notify_one p = elim p.asleep [ zero ↦ p | suc n ↦ record p { asleep = n; polling = p.polling + 1 } ]

unfoldable pub notify_all : Pool → Pool
notify_all p = record p { asleep = 0; polling = p.polling + p.asleep }

-- A worker that holds the mutex in `work`: it sleeps unless the pool is stopping or has a job; it
-- returns when there is no job; else it takes the oldest.
unfoldable pub look : Pool → Option ℕ × Pool
look p = elim p.jobs [
  | [] ↦ (
    none,
    if p.stopping
        then record p { polling = p.polling - 1; gone = p.gone + 1 }
        else record p { polling = p.polling - 1; asleep = p.asleep + 1 },
  )
  | job ∷ jobs ↦ (some job, record p { polling = p.polling - 1; busy = p.busy + 1; jobs = jobs })
]

-- The job has returned.
unfoldable pub finish : Pool → Pool
finish p = record p { busy = p.busy - 1; polling = p.polling + 1 }
