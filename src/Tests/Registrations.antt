-- ===== src/Tests/Registrations.antt =====
-- src/epoll/mod.rs: the life of a registration, and the handler of SIGUSR2.
use complete_io.Base.{◌≡◌, refl, true, false, some, none, List, [], ◌∷◌, IoError, os, ok}
use complete_io.Epoll.Registration.{
  Cell, freed, register_fd_raw, Event, drops, closes, fetches, dispatches, returns, step, run,
}
use complete_io.Epoll.Registration.Lifetime.{IsAlive, run-IsAlive}
use complete_io.Epoll.Registration.Stale.{stale_event_dangles, closed_first_leaks}
use complete_io.Epoll.Signals.{
  Process, interrupt, function, untouched, with_info, turns, interrupt_sig_handler,
}
use complete_io.Epoll.Signals.Chain.{signal_is_passed_on}

abbrev registered : Cell
registered = record {
  strong = 1;
  weak = 1;
  in_epoll = true;
  fetched = 0;
  handlers = 0;
  queue_refs = 1;
  handler_refs = 1;
  dangling = false;
}

-- An event is in the buffer of a turn.
abbrev one_fetched : Cell
one_fetched = record registered { fetched = 1 }

fetches-run : run (fetches ∷ []) (register_fd_raw none).1 ≡ some one_fetched
unfolding run register_fd_raw
fetches-run = refl

-- Its handler runs, and the handle outside is dropped meanwhile.
abbrev in_handler : List Event
in_handler = fetches ∷ dispatches ∷ drops none ∷ []

abbrev only_handler : Cell
only_handler = record registered { handlers = 1 }

in_handler-run : run in_handler (register_fd_raw none).1 ≡ some only_handler
unfolding run register_fd_raw
in_handler-run = refl

-- The handler returns, and the value goes.
gone : (c : Cell) × (step (returns none) only_handler ≡ some c) × (freed c ≡ true)
unfolding step
gone = (_, refl, refl)

run-IsAlive_example : IsAlive only_handler
run-IsAlive_example = run-IsAlive in_handler only_handler in_handler-run

stale_event_dangles_example :
    (d : Cell) × (run (drops none ∷ dispatches ∷ []) one_fetched ≡ some d) × (d.dangling ≡ true)
stale_event_dangles_example =
    stale_event_dangles (fetches ∷ []) one_fetched 0 fetches-run refl refl refl refl

-- ENOENT or EBADF, for a descriptor that is closed.
abbrev bad_descriptor : IoError
bad_descriptor = os 9

abbrev leaked : Cell
leaked = record registered { strong = 0; in_epoll = false; queue_refs = 0; handler_refs = 0 }

closed_first_leaks_example :
    (run (closes ∷ drops none ∷ []) registered ≡ none)
    × (leaked.strong ≡ 0)
    × (freed leaked ≡ false)
unfolding run register_fd_raw
closed_first_leaks_example =
    closed_first_leaks [] [] registered leaked bad_descriptor refl refl refl refl

signal_is_passed_on_example :
    (p : Process) × (turns (true ∷ false ∷ []) (untouched (function 64 true)) ≡ ok p)
    × (p.current ≡ interrupt)
    × (interrupt_sig_handler p.old ≡ some (with_info 64 ∷ []))
signal_is_passed_on_example = signal_is_passed_on (function 64 true) (false ∷ [])
