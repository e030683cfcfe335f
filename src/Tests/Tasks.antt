-- ===== src/Tests/Tasks.antt =====
-- src/evloop/threadpool/mod.rs: a task from its spawning on.
use complete_io.Base.{◌≡◌, ◌≤◌, refl, true, List, [], ◌∷◌, ◌++◌, length, swap_remove, arith}
use complete_io.ThreadPool.Task.{
  global, polling, done, Task, ready, not_ready, Event, notifies_from, advances, spawn, run,
}
use complete_io.ThreadPool.Task.Invariant.{run-exclusive}
use complete_io.ThreadPool.Task.Wakeups.{done_is_final}

-- To the first poll.
abbrev first_poll : List Event
first_poll =
    advances 0 not_ready ∷ advances 0 not_ready ∷ advances 0 not_ready ∷ advances 0 not_ready ∷ []

-- A notification comes during that poll.
abbrev notified_early : List Event
notified_early = first_poll ++ notifies_from true ∷ []

abbrev polled_once : Task
polled_once = record (spawn global) {
  level = 2;
  places = polling 1 ∷ [];
  notified = true;
  notifies = 1;
  polls = 1;
}

abbrev resolved : Task
resolved = record (spawn global) { places = []; status = done; polls = 1 }

run-exclusive_example : length polled_once.places ≤ 1
unfolding run spawn
run-exclusive_example = run-exclusive global notified_early polled_once (omega arith) refl (λ e. cc)

done_is_final_example :
    ((record resolved { level = 2; notified = true; notifies = 1 }).status ≡ done)
    × ((record resolved { level = 2; notified = true; notifies = 1 }).polls ≡ resolved.polls)
unfolding run spawn swap_remove
done_is_final_example =
    done_is_final global (first_poll ++ advances 0 ready ∷ []) (notifies_from true ∷ []) resolved _
      (omega arith) (omega arith) refl refl refl
