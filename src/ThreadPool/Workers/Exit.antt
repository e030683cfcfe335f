-- ===== src/ThreadPool/Workers/Exit.antt =====
-- src/evloop/threadpool/mod.rs: the vector of workers, and how a worker takes itself out of it.
use complete_io.Base.{ℕ, ◌≡◌, Option, none, some, [], get_elem?, occurrences}
use complete_io.ThreadPool.Workers.WorkQueue.{Deque}
use complete_io.ThreadPool.Workers.{exited, Worker, Pool}
use complete_io.ThreadPool.Workers.Effects.{standing}

module _ (deque : Deque) where
  -- What is left of the worker: its queues are dropped.
  abbrev pub gone_from : Worker deque → Worker deque
  gone_from w = record w { work_queue = deque.new; local_work_queue = []; pc = exited }

  abbrev present : Option (Worker deque) → ℕ
  present none = 0
  present (some w) = standing w.pc

  module _ (j : ℕ) where
    -- The worker `j` is in the vector once, until it has left.
    abbrev Listed : Pool deque → Type 0
    Listed p = occurrences j p.registered ≡ present (get_elem? p.threads j)
