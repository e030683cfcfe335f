-- ===== src/Tests/Turns.antt =====
-- Runs of a turn of epoll, with the list of the handlers that were called, and registrations at even
-- pointers.
use complete_io.Base.{
  ℕ, ◌≡◌, refl, Bool, ◌==◌, ◌%◌, some, List, [], ◌∷◌, ◌++◌, os, ok, select, length,
}
use complete_io.Epoll.Mask.{EventMask}
use complete_io.Epoll.Turn.{EpollEvent, filled, failed, poll, poll_interruptible}
use complete_io.Epoll.Turn.Dispatch.{turn_retries, turn_delivers, handle_each, is_alive}

abbrev even : ℕ → List ℕ → Bool
even p s = (p % 2) == 0

abbrev called : ℕ → EventMask → List ℕ → List ℕ
called p m s = s ++ p ∷ []

abbrev three_events : List EpollEvent
three_events =
    record { events = 1; pointer = 4 }
    ∷ record { events = 1; pointer = 5 }
    ∷ record { events = 4; pointer = 6 }
    ∷ []

turn_retries_example :
    poll even called (failed (os 4) ∷ failed (os 4) ∷ filled three_events ∷ []) []
    ≡ some (poll_interruptible even called (filled three_events) [])
turn_retries_example =
    turn_retries even called (failed (os 4) ∷ failed (os 4) ∷ []) (filled three_events) [] []
      (refl, (refl, tt)) refl

turn_delivers_example : poll_interruptible even called (filled three_events) [] ≡ (
  ok (length three_events),
  handle_each even called (select (is_alive even called []) three_events) [],
)
turn_delivers_example = turn_delivers even called (λ p q m s. refl) three_events []

three_called : poll_interruptible even called (filled three_events) [] ≡ (ok 3, 4 ∷ 6 ∷ [])
unfolding poll_interruptible
three_called = refl
