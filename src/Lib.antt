-- ===== src/Lib.antt =====
-- snowy is a coroutine runtime: each thread owns an event loop that resumes its coroutines, and
-- channels, mailboxes and futexes pass values and notifications between them. These modules model
-- that machinery and its backends for io_uring and kqueue; the kernel's answers are given to it.
--
-- Which file models what:
--   Buffer        the ring of slots of include/snowy/channel.hpp and include/snowy/mailbox.hpp:
--                 `slots_`, `head_` and `size_`, the write of `push` and the read of `pop`. Indices
--                 are `size_t`, so sums wrap at 2^64; a vector has at most 2^62 slots (Contents).
--   Channel       include/snowy/channel.hpp: `push`, `pop`, `take`, `close`, `try_send`, `try_recv`
--                 and `await_suspend` in both directions. Channel/Control has what the loop does to
--                 the channel's waiters: cancellation, stop, the sweep of `expire`, the destructor.
--   WaitQueue     include/snowy/detail/wait_queue.hpp: `front`, `enqueue`, `deliver`, `interrupt`.
--   Mailbox       include/snowy/mailbox.hpp, over WaitQueue. Mailbox/Refine relates it to Channel.
--   Futex         include/snowy/futex.hpp: `await_suspend`, `notify_one`, `notify_all`.
--   ReadyQueue    include/snowy/detail/intrusive_queue.hpp, with the `next_` pointers of all nodes in
--                 one store, which queues share.
--   Loop          src/loop.cpp and include/snowy/loop.hpp: the loop's state and its calls;
--                 Loop/Expire has `expire`, Loop/Run has `run`, Loop/Wake the threads that wake it.
--   When          include/snowy/when.hpp: `collect`, `when_all`, `when_any` and `timeout`.
--   Uring         src/uring.cpp and include/snowy/detail/io.hpp: requests, submission, cancellation and
--                 completion; Uring/Kernel has what the kernel owes.
--   Event         include/snowy/event.hpp, with the loop's sweep of its waiters.
--   File          src/file.cpp: `transfer` for writing, and `write_all`.
--   Socket        src/socket.cpp: `write` and `write_all`; src/udp.cpp: `send`.
--   Syscalls      src/uring_extra.cpp: the checks before a system call goes to the ring.
--   Direction     include/snowy/detail/io.hpp, src/loop.cpp and src/socket.cpp: which request uses a
--                 direction of a socket.
--   Spawn         include/snowy/spawn.hpp: `publish` and the two ways to join.
--   Pool          include/snowy/pool.hpp and src/pool.cpp: the queue of jobs, the workers, `run`.
--   Registered    src/uring_ops.cpp: files and buffers registered with a ring, and operations on them.
--   Chain         src/uring_ops.cpp: `submit`; src/uring.cpp: `access::reserve`.
--   Provided      src/uring_net.cpp and include/snowy/uring.hpp: `provided`, its leases and `each`.
--   Multishot     src/uring_net.cpp, include/snowy/uring.hpp and include/snowy/uring_multi.hpp: `stream`,
--                 `accept`, `watch`, `ticks`, `receive` and `recvmsg`.
--   Task          include/snowy/task.hpp: promises, tasks and awaiters, over a heap of frames.
--   Frame         include/snowy/detail/frame.hpp: `operator new` and `operator delete`.
--   ZeroCopy      src/uring_net.cpp and include/snowy/uring.hpp: `zc_send`.
--   Setup         src/uring.cpp: the constructor of `loop` from `uring::options`.
--   Fault         the exceptions and return codes of those.
--   Kqueue        src/kqueue.cpp: `submit` and `cancel`, and the events of `poll`; Kqueue/Queue has the
--                 constructor, `wake` and `poll`.
--   File/Handles  src/file.cpp and include/snowy/file.hpp: `file` itself, its descriptor and its `use`.
--   Spawn/Handles, Spawn/Wait  include/snowy/spawn.hpp and include/snowy/sync_wait.hpp: `join_handle`
--                 and `sync_wait`.
--   Errc, Prelude error codes, and names and lemmas that all of these share.
--
-- How code and model correspond. An intrusive list is a list of nodes in its order, and a node or a
-- coroutine is known by a number. The mutex of a mailbox, a futex or a loop makes each operation one
-- step, so threads interleave as sequences of operations. A value that was moved from is none. A stop
-- token and the stop flag of a loop are Booleans that an operation is given; `await_suspend` reads
-- them twice, so it is given two. The heap operations of the standard library are a parameter with
-- the standard's laws (Loop/Heap), and so are posted functions, messages, coroutines, the poll, and what polls and cancellations throw.
--
-- Bounds. The loops of `mailbox::close` and `futex::notify_all` run on as many rounds as there are
-- waiters, that of `expire` on as many as there are timers: each round removes one. The loops of
-- `write_all` run on as many rounds as the buffer has bytes: each round that goes on moves one at
-- least. `loop::run` need not end and runs on a list of clock readings, two for each round.
--
-- The loops that arm a request again (Multishot) run on a list of rounds, each the completions of one
-- request (for `ticks`, as they depend on the count that the request asks for), and report that they still run when the list ends; `each` runs on as many rounds as its
-- bytes need buffers; the reservation of room runs on the answers of the kernel, and so does a call of Kqueue that is made
-- again after an interruption, which has not returned when they end.
--
-- A submission entry is the call of liburing that prepares it. What liburing, the kernel and the
-- allocators answer is an argument, and a result that may be negative is a count or an error. A program
-- that uses tables, leases, tasks, files or join handles is a list of steps, in which objects that do not exist are left
-- alone.
--
-- Not modelled: the compiler's part of coroutines (the bodies and frames themselves), exceptions out of
-- allocations other than those of frames, thread checks outside the extensions of the ring, files and join handles,
-- the limits of kernel workers and busy polling, and the driver of `src/iocp.cpp`.
pub mod Buffer
pub mod Chain
pub mod Channel
pub mod Direction
pub mod Errc
pub mod Event
pub mod Fault
pub mod File
pub mod Frame
pub mod Futex
pub mod Kqueue
pub mod Loop
pub mod Mailbox
pub mod Multishot
pub mod Pool
pub mod Prelude
pub mod Provided
pub mod ReadyQueue
pub mod Registered
pub mod Setup
pub mod Socket
pub mod Spawn
pub mod Syscalls
pub mod Task
pub mod Uring
pub mod WaitQueue
pub mod When
pub mod ZeroCopy
