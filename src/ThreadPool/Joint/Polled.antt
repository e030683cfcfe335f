-- ===== src/ThreadPool/Joint/Polled.antt =====
-- src/evloop/threadpool/mod.rs: a handle that a worker holds is polled once.
use complete_io.Base.{
  ℕ, Bool, zero, suc, ◌+◌, ◌<◌, ◌≤◌, ◌≡◌, ◌≢◌, ap, true, false, some, List, [], ◌∷◌, ◌++◌,
  get_elem?, occurrences, occurrences-append, occurrences-perm, arith,
}
use complete_io.ThreadPool.Task.{Task, crashed, usize_mod}
use complete_io.ThreadPool.Workers.{Pool, Worker, turning, run}
use complete_io.ThreadPool.Workers.WorkQueue.{Deque}
use complete_io.ThreadPool.Workers.Balance.{load, weight}
use complete_io.ThreadPool.Workers.Drain.{Alone}
use complete_io.ThreadPool.Workers.Spawned.{take_each, spawned_is_polled}
use complete_io.ThreadPool.Joint.{Reaches}
use complete_io.ThreadPool.Joint.Handles.{one_handle}

module _ (deque : Deque) (x : ℕ) where
  open deque use {Queue, contents}

  weight-load :
      (ws : List (Worker deque)) (i : ℕ) (w : Worker deque)
      → get_elem? ws i ≡ some w
      → weight deque x w ≤ load deque x ws
  weight-load [] i w e = cc
  weight-load (v ∷ ws) zero w e = let same : v ≡ w = cc in rw same (omega arith)
  weight-load (v ∷ ws) (suc i) w e = omega (arith, weight-load ws i w e)

  -- If the handle of a task is in the custom event or on the work queue of a worker that is in a
  -- turn, in an active pool, with fewer than 2^64 - 1 notifications and no poll of the task that
  -- ended the process, then that worker takes what is in the custom event and comes back from the
  -- turn, and by its own steps, before it comes back from another turn, comes to a state in which
  -- do_poll has been called on the handle exactly once more, if the tasks it polls only run to the
  -- end of do_poll.
  pub held_is_polled_once :
      (i : ℕ) (b : Bool) (q : Queue) (l : List ℕ) (p : Pool deque) (t : Task)
      → Reaches deque x p t
      → suc t.notifies < usize_mod
      → t.status ≢ crashed
      → p.active ≡ true
      → p.ended ≡ false
      → get_elem? p.threads i
        ≡ some (record { work_queue = q; local_work_queue = l; borrowed = false; pc = turning b })
      → occurrences x p.posted + occurrences x (contents q) ≡ 1
      → (m : Pool deque) × (run deque (take_each deque i p.posted) p ≡ some m)
        × (u : Pool deque) × Alone deque i m u
        × (occurrences x u.polled ≡ suc (occurrences x p.polled))
  held_is_polled_once i b q l p t r bound alive on live at held =
      let (m, taken, u, path, gs, same, polls) = spawned_is_polled deque i b q l p on live at in
      (
        m,
        taken,
        u,
        path,
        omega (
          arith,
          ap (occurrences x) polls,
          occurrences-append x (p.polled ++ l) gs,
          occurrences-append x p.polled l,
          occurrences-perm x same,
          occurrences-append x p.posted (contents q),
          one_handle deque x p t r bound alive,
          weight-load p.threads i _ at,
          held,
        ),
      )
