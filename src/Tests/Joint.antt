-- ===== src/Tests/Joint.antt =====
-- src/evloop/threadpool/mod.rs: task 7 on a pool of one worker: it is spawned while the worker waits,
-- taken, stolen, polled, and notified in its poll.
use complete_io.Base.{
  ℕ, ◌+◌, ◌≡◌, ◌≤◌, refl, true, false, some, List, [], ◌∷◌, occurrences, total, arith,
}
use complete_io.ThreadPool.Task
use complete_io.ThreadPool.Task.{Task, entered, looping, polling, queued, live}
use complete_io.ThreadPool.Workers
use complete_io.ThreadPool.Workers.{
  Pool, Worker, works, goes, returns, turning, run, with_concurrency,
}
use complete_io.ThreadPool.Workers.WorkQueue.{list_deque}
use complete_io.ThreadPool.Workers.Balance.{load}
use complete_io.ThreadPool.Joint.{Reaches, spawned, bumped, taken}
use complete_io.ThreadPool.Joint.Weights.{is_elsewhere}
use complete_io.ThreadPool.Workers.Spawned.{take_each}
use complete_io.ThreadPool.Workers.Drain.{Alone}
use complete_io.ThreadPool.Joint.Polled.{held_is_polled_once}
use complete_io.ThreadPool.Joint.Handles.{one_handle}

abbrev to_turn : List Workers.Event
to_turn = works 0 (goes false) ∷ works 0 (goes false) ∷ works 0 (goes false) ∷ []

abbrev start : Pool list_deque
start = with_concurrency list_deque 1

-- The worker with this queue, at this place.
abbrev at_turn : List ℕ → List ℕ → Pool list_deque
at_turn posted queue = record {
  active = true;
  posted = posted;
  registered = 0 ∷ [];
  threads =
      record { work_queue = queue; local_work_queue = []; borrowed = false; pc = turning false }
      ∷ [];
  started = 7 ∷ [];
  polled = [];
  dropped = [];
  ended = false;
}

abbrev waiting_task : Task
waiting_task = record {
  kind = Task.global;
  level = 1;
  places = queued ∷ [];
  status = live;
  notified = false;
  notifies = 0;
  polls = 0;
}

taken_seven : Reaches list_deque 7 (at_turn [] (7 ∷ [])) waiting_task
unfolding Workers.run Workers.step Workers.with_concurrency Task.step Task.spawn
taken_seven = taken 0 0 Task.ready [] (spawned 1 to_turn refl refl refl) refl refl refl refl

-- A notification comes while the task is on the queue of the worker.
abbrev notified_task : Task
notified_task = record waiting_task { level = 2; notified = true; notifies = 1 }

notified_seven : Reaches list_deque 7 (at_turn [] (7 ∷ [])) notified_task
unfolding Task.step
notified_seven = bumped true taken_seven refl

one_handle_example :
    occurrences 7 []
      + (load list_deque 7 (at_turn [] (7 ∷ [])).threads + total is_elsewhere notified_task.places)
    ≤ 1
one_handle_example =
    one_handle list_deque 7 (at_turn [] (7 ∷ [])) notified_task notified_seven (omega arith)
      (λ q. cc)

held_is_polled_once_example :
    (m : Pool list_deque) × (run list_deque (take_each list_deque 0 []) (at_turn [] (7 ∷ []))
      ≡ some m)
    × (u : Pool list_deque) × Alone list_deque 0 m u
    × (occurrences 7 u.polled ≡ 1)
held_is_polled_once_example =
    held_is_polled_once list_deque 7 0 false (7 ∷ []) [] (at_turn [] (7 ∷ [])) notified_task
      notified_seven (omega arith) (λ q. cc) refl refl refl refl
