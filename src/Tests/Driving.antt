-- ===== src/Tests/Driving.antt =====
-- src/queue.rs: a future that is driven on thread 9.
use complete_io.Base.{◌≡◌, refl, inl, true, false, some, List, [], ◌∷◌, arith}
use complete_io.Queue.{
  Driver, blocked, entering, polling, Event, advances, notifies_now, returns, start, run,
}
use complete_io.Queue.Wakeups.{waiting_is_woken, early_notification_lost}

-- The first poll answers `NotReady`, and the thread goes on to wait.
abbrev to_wait : List Event
to_wait = advances false ∷ advances false ∷ advances false ∷ advances false ∷ []

abbrev waiting : Driver
waiting = record {
  pc = blocked;
  notified = false;
  thread_id = 9;
  signals = 0;
  notifies = 0;
  polls = 1;
}

-- The future notifies itself during its first poll.
abbrev yielding : List Event
yielding = advances false ∷ notifies_now ∷ advances false ∷ []

abbrev yielded : Driver
yielded = record {
  pc = entering;
  notified = true;
  thread_id = 0;
  signals = 0;
  notifies = 1;
  polls = 1;
}

abbrev stuck : Driver
stuck = record yielded { pc = blocked; thread_id = 9; notifies = 2 }

yields : run 9 yielding start ≡ some yielded
unfolding run start
yields = refl

waiting_is_woken_example :
    (u : Driver) × (run 9
        (notifies_now ∷ returns true ∷ advances false ∷ advances false ∷ [])
        waiting
      ≡ some u)
    × (waiting.thread_id ≡ 9)
    × (u.signals ≡ 1)
    × (u.pc ≡ polling)
    × (u.polls ≡ 2)
unfolding run start
waiting_is_woken_example = waiting_is_woken 9 to_wait waiting (omega arith) refl refl refl

early_notification_lost_example :
    (stuck.signals ≡ yielded.signals) × (stuck.polls ≡ yielded.polls) × (stuck.notified ≡ true)
unfolding run
early_notification_lost_example =
    early_notification_lost 9 (advances false ∷ advances false ∷ notifies_now ∷ []) yielded stuck
      (inl refl) refl tt refl
