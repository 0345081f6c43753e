-- ===== src/ReadyQueue.antt =====
-- include/snowy/detail/intrusive_queue.hpp: the intrusive FIFO on which operations, posts and
-- messages are queued. A node is a number; the links `next_` of all nodes are one store, which the
-- queues of a loop share, since a node may pass from one to another.
pub mod Shape
pub mod Fifo
mod Tests
use snowy.Prelude.{ℕ, Bool, true, false, Option, none, some, ◌==◌, if◌then◌else◌, is_none}

-- `next_` of every node; `none` is the null pointer.
abbrev pub Links : Type 0
Links = ℕ → Option ℕ

pub record ReadyQueue : Type 0 where
  pub head : Option ℕ
  pub tail : Option ℕ

unfoldable pub update : Links → ℕ → Option ℕ → Links
update l n p m = if m == n then p else l m

abbrev pub create : ReadyQueue
create = record { head = none; tail = none }

unfoldable pub empty : ReadyQueue → Bool
empty q = is_none q.head

-- `push`; its assertion `next_ == nullptr` is a hypothesis of the theorems.
abbrev pub push_after : Links → ReadyQueue → ℕ → Option ℕ → Links × ReadyQueue
push_after l q n none = (l, record { head = some n; tail = some n })
push_after l q n (some t) = (update l t (some n), record { head = q.head; tail = some n })

unfoldable pub push : Links → ReadyQueue → ℕ → Links × ReadyQueue
push l q n = push_after l q n q.tail

abbrev pub pop_node : Links → ReadyQueue → Option ℕ → Option ℕ × Links × ReadyQueue
pop_node l q none = (none, l, q)
pop_node l q (some n) = (
  some n,
  update l n none,
  record { head = l n; tail = (if is_none (l n) then none else q.tail) },
)

unfoldable pub pop : Links → ReadyQueue → Option ℕ × Links × ReadyQueue
pop l q = pop_node l q q.head
