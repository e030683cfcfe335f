-- ===== src/Tests/Workers.antt =====
-- src/evloop/threadpool/mod.rs: pools of one or two workers, with a list for each work queue.
use complete_io.Base.{
  ℕ, ◌≡◌, ◌+◌, refl, true, false, some, List, [], ◌∷◌, ◌++◌, get_elem?, occurrences, Perm,
}
use complete_io.ThreadPool.Workers.WorkQueue.{list_deque}
use complete_io.ThreadPool.Workers.Borrow.{local_spawns}
use complete_io.ThreadPool.Workers.{
  crash, polling_local, Event, spawns, shuts_down, works, goes, spawns_local, takes, returns,
  Worker, Pool, checking, polling, turning, leaving, with_concurrency, step, run,
}
use complete_io.ThreadPool.Workers.Balance.{load}
use complete_io.ThreadPool.Workers.Flow.{handles_balanced}
use complete_io.ThreadPool.Workers.Drain.{Alone, worker_drains}
use complete_io.ThreadPool.Workers.Spawned.{take_each, spawned_is_polled}
use complete_io.ThreadPool.Workers.LocalTasks.{local_task_left_waiting}

-- Worker 0 goes to its first turn.
abbrev to_turn : List Event
to_turn = works 0 (goes false) ∷ works 0 (goes false) ∷ works 0 (goes false) ∷ []

-- Task 7 is spawned, taken, and polled; it spawns the local task 8.
abbrev to_poll : List Event
to_poll =
    to_turn
    ++ spawns 7
      ∷ works 0 takes
      ∷ works 0 (returns true)
      ∷ works 0 (goes false)
      ∷ works 0 (goes false)
      ∷ works 0 (goes false)
      ∷ []

abbrev polls_seven : Pool list_deque
polls_seven = record (with_concurrency list_deque 1) {
  threads = record { work_queue = []; local_work_queue = []; borrowed = false; pc = polling } ∷ [];
  started = 7 ∷ [];
  polled = 7 ∷ [];
}

to_poll-run : run list_deque to_poll (with_concurrency list_deque 1) ≡ some polls_seven
unfolding run with_concurrency
to_poll-run = refl

handles_balanced_example :
    occurrences 7 polls_seven.started
    ≡ occurrences 7 polls_seven.posted
      + ((load list_deque 7 polls_seven.threads + occurrences 7 polls_seven.dropped)
          + occurrences 7 polls_seven.polled)
handles_balanced_example = handles_balanced list_deque 7 1 to_poll polls_seven to_poll-run

-- The second of two workers sees the shutdown first.
abbrev second_leaves : List Event
second_leaves = shuts_down ∷ works 1 (goes false) ∷ []

abbrev leaves_soon : Worker list_deque
leaves_soon = record { work_queue = []; local_work_queue = []; borrowed = false; pc = leaving }

abbrev shut : Pool list_deque
shut = record (with_concurrency list_deque 2) {
  active = false;
  threads =
      record { work_queue = []; local_work_queue = []; borrowed = false; pc = checking }
      ∷ leaves_soon
      ∷ [];
}

-- One worker with these queues.
abbrev pool_of : List ℕ → Worker list_deque → Pool list_deque
pool_of posted w = record (with_concurrency list_deque 1) { posted = posted; threads = w ∷ [] }

abbrev busy_worker : Worker list_deque
busy_worker = record {
  work_queue = 3 ∷ 4 ∷ [];
  local_work_queue = 1 ∷ 2 ∷ [];
  borrowed = false;
  pc = checking;
}

worker_drains_example :
    (u : Pool list_deque) × Alone list_deque 0 (pool_of [] busy_worker) u
    × (gs : List ℕ) × Perm gs (3 ∷ 4 ∷ [])
    × (u.polled ≡ 1 ∷ 2 ∷ gs)
    × (r : List ℕ) × (r ≡ [])
    × (get_elem? u.threads 0
        ≡ some (record {
          work_queue = r;
          local_work_queue = [];
          borrowed = false;
          pc = turning false;
        }))
unfolding with_concurrency
worker_drains_example =
    worker_drains list_deque 0 (3 ∷ 4 ∷ []) (1 ∷ 2 ∷ []) (pool_of [] busy_worker) refl refl refl

abbrev waiting_worker : Worker list_deque
waiting_worker = record busy_worker { pc = turning false }

spawned_is_polled_example :
    (m : Pool list_deque) × (run list_deque
        (take_each list_deque 0 (5 ∷ 6 ∷ []))
        (pool_of (5 ∷ 6 ∷ []) waiting_worker)
      ≡ some m)
    × (u : Pool list_deque) × Alone list_deque 0 m u
    × (gs : List ℕ) × Perm gs (5 ∷ 6 ∷ 3 ∷ 4 ∷ [])
    × (u.polled ≡ 1 ∷ 2 ∷ gs)
unfolding with_concurrency
spawned_is_polled_example =
    spawned_is_polled list_deque 0 false (3 ∷ 4 ∷ []) (1 ∷ 2 ∷ [])
      (pool_of (5 ∷ 6 ∷ []) waiting_worker) refl refl refl

-- Task 7 has spawned the local task 8, the worker waits, and another thread spawns task 9.
abbrev left_waiting : Pool list_deque
left_waiting = record polls_seven {
  posted = 9 ∷ [];
  threads =
      record { work_queue = []; local_work_queue = 8 ∷ []; borrowed = false; pc = turning false }
      ∷ [];
  started = 7 ∷ 8 ∷ 9 ∷ [];
}

abbrev poller : Worker list_deque
poller = record { work_queue = []; local_work_queue = []; borrowed = false; pc = polling }

left_waiting-run :
    run list_deque
      (works 0 (spawns_local 8) ∷ works 0 (returns true) ∷ works 0 (goes false) ∷ spawns 9 ∷ [])
      polls_seven
    ≡ some left_waiting
unfolding run with_concurrency
left_waiting-run = refl

local_task_left_waiting_example :
    (w' : Worker list_deque) × (get_elem? left_waiting.threads 0 ≡ some w')
    × (w'.pc ≡ turning false)
    × (more : List ℕ) × (w'.local_work_queue ≡ more ++ 8 ∷ [])
unfolding with_concurrency
local_task_left_waiting_example =
    local_task_left_waiting list_deque 0 polls_seven left_waiting poller 8 (spawns 9 ∷ []) refl refl
      refl refl tt left_waiting-run

-- Task 1 is local, and is polled.
abbrev to_local_poll : List Event
to_local_poll =
    works 0 (goes false)
    ∷ works 0 (goes false)
    ∷ works 0 (goes false)
    ∷ spawns 7
    ∷ works 0 (spawns_local 1)
    ∷ works 0 (returns true)
    ∷ works 0 (goes false)
    ∷ works 0 (goes false)
    ∷ []

abbrev local_poller : Worker list_deque
local_poller = record {
  work_queue = [];
  local_work_queue = [];
  borrowed = true;
  pc = polling_local;
}

abbrev polls_local : Pool list_deque
polls_local = record (with_concurrency list_deque 1) {
  posted = 7 ∷ [];
  threads = local_poller ∷ [];
  started = 7 ∷ 1 ∷ [];
  polled = 1 ∷ [];
}

to_local_poll-run : run list_deque to_local_poll (with_concurrency list_deque 1) ≡ some polls_local
unfolding run with_concurrency
to_local_poll-run = refl

local_spawns_example :
    step list_deque (works 0 (spawns_local 9)) polls_local ≡ some (crash list_deque polls_local)
unfolding with_concurrency
local_spawns_example =
    local_spawns list_deque 1 to_local_poll polls_local 0 9 local_poller to_local_poll-run refl refl
      refl
