-- ===== src/ThreadPool/Joint.antt =====
-- src/evloop/threadpool/mod.rs: one global task together with the pool that runs it: the steps of its
-- signal level and its handle, and those of the pool that move a handle of it. The task is `x`.
pub mod Weights
pub mod Ledger
pub mod Handles
pub mod Polled
use complete_io.Base.{
  ℕ, zero, ◌+◌, ◌≡◌, true, some, Option, List, [], ◌∷◌, ◌++◌, get_elem?, occurrences, Bool,
}
use complete_io.ThreadPool.Task
use complete_io.ThreadPool.Task.{
  Task, Place, Answer, posted, pushing, queued, entered, looping, polling, polled,
}
use complete_io.ThreadPool.Workers
use complete_io.ThreadPool.Workers.{Pool, spawns, works, notifies, takes, goes}
use complete_io.ThreadPool.Workers.WorkQueue.{Deque}

-- The handle is in `do_poll`.
abbrev pub Polls : Place → Type 0
Polls posted = ⊥
Polls pushing = ⊥
Polls queued = ⊥
Polls _ = Unit {0}

module _ (deque : Deque) (x : ℕ) where
  -- The step makes no handle of the task, and takes none from the custom event or to a poll.
  pub record Apart (p u : Pool deque) : Type 0 where
    pub started : occurrences x u.started ≡ occurrences x p.started
    pub posted : occurrences x u.posted ≡ occurrences x p.posted
    pub polled : occurrences x u.polled ≡ occurrences x p.polled

  -- A pool and a task that has been spawned on it, in any order of the steps of all threads.
  pub data Reaches : Pool deque → Task → Type 0 where
    spawned :
        {p u : Pool deque} (concurrency : ℕ) (es : List Workers.Event)
        → Workers.run deque es (Workers.with_concurrency deque concurrency) ≡ some p
        → occurrences x p.started ≡ 0
        → Workers.step deque (spawns x) p ≡ some u
        → Reaches u (Task.spawn Task.global)
    apart :
        {p u : Pool deque} {t : Task} (e : Workers.Event)
        → Reaches p t
        → Workers.step deque e p ≡ some u
        → Apart p u
        → Reaches u t
    bumped :
        {p : Pool deque} {t v : Task} (worker : Bool)
        → Reaches p t
        → Task.step (Task.notifies_from worker) t ≡ some v
        → Reaches p v
    pushed :
        {p u : Pool deque} {t v : Task} (i k : ℕ) (a : Answer)
        → Reaches p t
        → get_elem? t.places k ≡ some pushing
        → Task.step (Task.advances k a) t ≡ some v
        → Workers.step deque (works i (notifies x)) p ≡ some u
        → Reaches u v
    taken :
        {p u : Pool deque} {t v : Task} (i k : ℕ) (a : Answer) (rest : List ℕ)
        → Reaches p t
        → get_elem? t.places k ≡ some posted
        → Task.step (Task.advances k a) t ≡ some v
        → p.posted ≡ x ∷ rest
        → Workers.step deque (works i takes) p ≡ some u
        → Reaches u v
    stolen :
        {p u : Pool deque} {t v : Task} (i k : ℕ) (a : Answer) (busy : Bool)
        → Reaches p t
        → get_elem? t.places k ≡ some queued
        → Task.step (Task.advances k a) t ≡ some v
        → Workers.step deque (works i (goes busy)) p ≡ some u
        → u.polled ≡ p.polled ++ x ∷ []
        → Reaches u v
    polls :
        {p : Pool deque} {t v : Task} (k : ℕ) (a : Answer) (q : Place)
        → Reaches p t
        → get_elem? t.places k ≡ some q
        → Polls q
        → Task.step (Task.advances k a) t ≡ some v
        → Reaches p v
