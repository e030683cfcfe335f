-- ===== src/Tests/Running.antt =====
-- src/evloop/threadpool/mod.rs: calls of `run` on a pool of one worker. The pool stands at the address
-- 4096, and the task of the call is 7.
use complete_io.Base.{swap_remove, ℕ, ◌≡◌, refl, true, false, none, some, [], ◌∷◌, ok, panic}
use complete_io.ThreadPool.Handles.{start_spawned, current_worker}
use complete_io.ThreadPool.Workers.WorkQueue.{list_deque}
use complete_io.ThreadPool.Workers
use complete_io.ThreadPool.Workers.{
  Worker, Pool, works, takes, returns, goes, stealing, turning, exited, shuts_down,
  with_concurrency,
}
use complete_io.ThreadPool.Run.{
  cell, elsewhere, discards, answers, ready, lazy, gone, Call, call, returned, step, Calls, begins,
  steps,
}
use complete_io.ThreadPool.Run.Idle.{Alone}
use complete_io.ThreadPool.Run.Returns.{run_returns}

abbrev idle : Worker list_deque
idle = record { work_queue = []; local_work_queue = []; borrowed = false; pc = turning false }

abbrev idle_pool : Pool list_deque
idle_pool = record (with_concurrency list_deque 1) { threads = idle ∷ [] }

run_returns_example :
    (c : Call list_deque (cell ℕ) 4096 7) × Alone list_deque (cell ℕ) 4096 7 0 idle_pool c
    × (c.stage ≡ lazy)
    × (c.polled_by ≡ some 0)
    × (d : Call list_deque (cell ℕ) 4096 7) × (step list_deque
          (cell ℕ)
          4096
          7
          (answers false (ready 42))
          c
        ≡ some d)
    × (returned list_deque (cell ℕ) 4096 7 d ≡ some (ok 42))
    × (d.given ≡ some (record { pool = 4096; worker = 0 }))
unfolding with_concurrency
run_returns_example =
    run_returns list_deque (cell ℕ) 4096 7 0 false [] 42 idle_pool refl refl refl refl refl

-- The future of the closure waits for nothing: no waker is kept in its poll.
abbrev abandoned : Call list_deque (cell ℕ) 4096 7
abandoned = record {
  pool = record idle_pool {
    threads = record idle { pc = stealing } ∷ [];
    started = 7 ∷ [];
    polled = 7 ∷ [];
  };
  polled_by = none;
  stage = gone;
  suspended = true;
  lost = false;
  wakers = 0;
  rx = some none;
  given = some (record { pool = 4096; worker = 0 });
  resolved = none;
  panicked = false;
}

-- The pool shuts down when the worker has taken the task: the worker leaves and drops it.
abbrev dropped_with_worker : Call list_deque (cell ℕ) 4096 7
dropped_with_worker = record abandoned {
  pool = record idle_pool {
    active = false;
    registered = [];
    threads = record idle { pc = exited } ∷ [];
    started = 7 ∷ [];
    dropped = 7 ∷ [];
  };
  lost = true;
  given = none;
}

dropped_with_worker-Calls : Calls list_deque (cell ℕ) 4096 7 idle_pool dropped_with_worker
unfolding with_concurrency step call Workers.step start_spawned current_worker swap_remove
dropped_with_worker-Calls =
    steps (discards 0)
      (steps (elsewhere (works 0 (goes false)))
        (steps (elsewhere (works 0 (returns true)))
          (steps (elsewhere shuts_down) (steps (elsewhere (works 0 takes)) (begins refl) refl) refl)
          refl)
        refl)
      refl

dropped_with_worker-panics : returned list_deque (cell ℕ) 4096 7 dropped_with_worker ≡ some panic
unfolding returned
dropped_with_worker-panics = refl
