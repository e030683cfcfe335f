-- ===== src/Lib.antt =====
-- complete-io: an asynchronous I/O library in Rust, over epoll on Linux and completion ports on
-- Windows, with a thread pool that runs futures.
--
-- An event queue (src/queue.rs; src/epoll/mod.rs is the one of Linux, src/iocp/mod.rs that of
-- Windows) waits for events on a thread and calls the handlers of the descriptors that have some.
-- The sockets of Linux (src/epoll/net.rs) register their descriptor with `FuturesRegistration`,
-- and their futures add interests to it, which the handler takes out and notifies. Those of
-- Windows (src/iocp/net.rs) start overlapped operations, whose packets notify. A future is driven
-- either by `EventQueue::run` on the thread of the queue, or as a task of the thread pool
-- (src/evloop/threadpool/mod.rs), whose workers turn the queue when they have nothing to do.
--
-- - Base, Bytes: tests and lists over the native numbers, `Vec::swap_remove`, `io::Result` with
--   panics; the buffers of the sockets.
-- - Epoll/Mask: `EventMask`, `EventMode` as records of flags. Epoll/Interests: one registration as
--   a `World`: the vector of interests, the flags of their cells, and a log of the calls to the
--   kernel and to the tasks' wakers; `add_interest`, `FutureInterest::poll`, `handle_event`. A
--   report of the kernel and the call of `handle_event` for it are two steps, with others between.
--   The loop of `handle_event` takes fuel, one more than there are interests. What `epoll_ctl`
--   answers is the parameter `kernel`, a function from the length of the log. The children Loop,
--   Wakeup, Armed, Tracked, Mixed, Runs, Fired and Served prove.
-- - Epoll/Turn: `Inner::poll` from the return of epoll_wait on, over the registrations that exist
--   and their handlers as parameters. The waits that end are a list. Turn/Dispatch proves;
--   Turn/Sockets fills the parameters with one `World` for each registration, and has a turn
--   together with a read of Epoll/Net.
-- - Epoll/Registration: the allocation of one registration (`register_fd_raw`, `Registration`, its
--   `Drop`) as a step function over clones, drops, turns and the closing of the descriptor. That
--   EPOLL_CTL_DEL succeeds only for a descriptor in the interest list, and that a close takes it
--   out, is what Linux documents. Lifetime and Stale prove. Epoll/Signals: `interrupt_sig_handler`
--   and its installation; Chain proves.
-- - Epoll/CustomEvents: one custom event (`new_custom_event`, `post_custom_event`, the handler of
--   its eventfd) as a step function over the accesses of the threads. The eventfd and the queue of
--   the data are the interfaces of Outside, which a counter and a list fill. Upkeep and Delivery
--   prove; Ready and Progress are on the way to Promise, where a custom event is compared with the
--   FIFO channel of Queue/Channel.
-- - Epoll/Net: the six futures of the sockets, one module each, over what they share in Epoll/Net.
--   `poll` takes the task, the outcome of the system call, the state in `self` and the `World`.
--   Waiting, Outcomes, Polls, Sleep and Transfer prove; Resumed puts a future, the calls on its
--   registration (Epoll/Interests/Runs) and its next `poll` together.
-- - ThreadPool/Task: the signal level of a task and its handles, as a step function over the
--   events that the threads make; the level wraps at 2^64. Counts, Invariant and Wakeups prove.
-- - ThreadPool/Workers: the pool and its workers as a step function over the steps of the threads:
--   `with_concurrency`, `begin_shutdown`, `spawn_future`, `spawn_local_future`, the push of
--   `notify`, `handle_remote_spawn`, `run_worker`. The deque of coco is the interface of
--   WorkQueue, which a list fills. The `RefCell` of the local queue is its borrow state, and a
--   worker that leaves drops its queues. Balance and Flow prove on handles, Positions, Effects and
--   Exit on the vector of workers, Drain and Spawned on the loop of a worker, Waiting, LocalTasks
--   and Borrow on local tasks.
-- - ThreadPool/Handles: `CURRENT_WORKER`, `local` (and `local_handle`, which is the same), the
--   closure of `spawn`.
-- - ThreadPool/Run: `ThreadPool::run`: a pool of ThreadPool/Workers, the task that the call
--   spawns, and the channel on which it waits, as a step function; the channel
--   (`futures::sync::oneshot`) is an interface, which a cell fills. The references to the task are
--   its handle and a count of wakers; the handle may be dropped with the queues of a worker that
--   leaves. Invariant, Moves and Wakers are on the way to Verdict, Idle on that to Returns.
-- - ThreadPool/Joint: a task of ThreadPool/Task together with a pool of ThreadPool/Workers, as a
--   relation on the states that both reach when each step of the pool that moves a handle of the
--   task is the step of that handle (a handle that a leaving worker drops moves no more). Weights
--   and Ledger have what a step changes on each side; Handles and Polled prove.
-- - EventLoop: the traits of src/evloop/mod.rs as an interface: the handles of an event loop,
--   which threads get a local one, and the closures spawned over them. Pool has the thread pool
--   and Tokio the reactor of tokio-core (src/evloop/tokio.rs, over an interface of what it calls),
--   which fill it; Client has nested spawns over any of them, and Pool what they come to on the
--   pool.
-- - Queue: `EventQueue::run` with `InterruptNotify` over the epoll `Interrupt`, as a step
--   function; Wakeups proves. Queue/Channel: an abstract FIFO channel between posters and a
--   handler.
-- - Iocp: src/iocp/mod.rs: the heap cell of an overlapped operation with its reference count and
--   what Windows owes it, `post_custom_event`, `poll_iocp`; Posted proves. Iocp/Events: the port
--   with its table of handlers and its packets, as a step function, in which to take a packet and
--   to call what it is for are two steps, since clones of the port turn at once; Order, Kept,
--   Steps and Drained prove. The packets come in the order they were queued, and the allocator
--   gives a box no address in use and not the odd address 1. Iocp/Timeouts has the milliseconds of
--   `poll_iocp` and those of `Inner::poll` of src/epoll/mod.rs; Exact proves.
-- - Iocp/Net: src/iocp/net.rs: the six futures over the completion port, one module each, with
--   their `Drop`. Outcomes, Polls, Transfer and Counts prove; Lifetime has the interface that the
--   six fill (in Futures and Sockets), and every order of their steps; Operations puts the six
--   together.
-- - Tests: the theorems at concrete inputs, and runs.
--
-- Not modelled: the kernel, `AtomicTask`, the executor of the futures crate and the queues of
-- crossbeam and coco, which are under no control of this code: the calls to them are recorded,
-- their outcomes are arguments, or they are interfaces with what they document. stop, run_future
-- and spawn_locked of the thread pool are unimplemented. The traits of src/io.rs and src/net.rs
-- declare no behaviour but `bind`, which is in Epoll/Net. Atomics are sequentially consistent.
pub mod Base
pub mod Bytes
pub mod Epoll
pub mod ThreadPool
pub mod Queue
pub mod EventLoop
pub mod Iocp
mod Tests
