-- ===== src/Tests/Registration.antt =====
-- src/epoll/mod.rs: one registration, used by tasks 7 and 8.
use complete_io.Base.{
  ℕ, ◌≡◌, refl, inl, inr, true, false, Option, none, some, [], ◌∷◌, Perm, IoError, os, Result, ok,
  err, swap_remove, arith,
}
use complete_io.Epoll.Mask.{read_only, write_only, union, contains, intersects, edge_one_shot}
use complete_io.Epoll.Interests.{
  World, Call, fresh, push, update, wakes, fire, add_interest, handle_event,
}
use complete_io.Epoll.Interests.Wakeup.{Handled, handle_event-Handled, rearmed}
use complete_io.Epoll.Interests.Armed.{armed, failed_add_interest}
use complete_io.Epoll.Interests.Tracked.{IsTracked, push-IsTracked}
use complete_io.Epoll.Interests.Mixed.{read_write, both_ready_wakes_none}
use complete_io.Epoll.Interests.Runs.{adds, reports, handles, run, IsSound, run-IsSound}

abbrev willing : ℕ → Option IoError
willing n = none

-- The second system call fails, with ENOMEM.
abbrev broken : ℕ → Option IoError
broken n = some (os 12)

-- Task 7 waits to read, task 8 to write.
abbrev two_waiting : World
two_waiting = push 8 write_only (push 7 read_only fresh)

fresh-IsTracked : IsTracked fresh
fresh-IsTracked i = ground arith

two_waiting-IsTracked : IsTracked two_waiting
two_waiting-IsTracked =
    push-IsTracked 8 write_only (push 7 read_only fresh)
      (push-IsTracked 7 read_only fresh fresh-IsTracked)

run-IsSound_example :
    (w : World) × (run willing
        (adds 7 read_only ∷ reports read_only ∷ adds 8 write_only ∷ handles read_only ∷ [])
        fresh
      ≡ some w)
    × IsSound willing w
run-IsSound_example =
    run-IsSound willing (λ n. refl)
      (adds 7 read_only ∷ reports read_only ∷ adds 8 write_only ∷ handles read_only ∷ []) refl

handle_event-Handled_example :
    (r : Result (Unit {0})) × (w : World) × (handle_event willing read_only two_waiting
      ≡ some (r, w))
    × Handled willing read_only two_waiting r w
handle_event-Handled_example = handle_event-Handled willing read_only two_waiting

failed_add_interest_example :
    let w1 = (add_interest broken 7 read_only fresh).1 in
    ((add_interest broken 7 read_only fresh).0 ≡ err (os 12))
    × ((add_interest broken 8 read_only w1).0 ≡ ok 1)
    × (contains (armed (add_interest broken 8 read_only w1).1.log) read_only ≡ false)
unfolding contains
failed_add_interest_example = failed_add_interest broken 7 8 read_only fresh (os 12) refl refl refl

both_ready_wakes_none_example :
    (r : Result (Unit {0})) × (w : World) × (handle_event willing read_write two_waiting
      ≡ some (r, w))
    × Perm w.interests two_waiting.interests
    × ((i : ℕ) → w.fired i ≡ two_waiting.fired i)
    × (w.log ≡ rearmed willing w.interests two_waiting.log)
both_ready_wakes_none_example = both_ready_wakes_none willing two_waiting (inl refl, (inr refl, tt))

-- Readiness for reading wakes task 7, and the kernel is asked for the rest.
one_woken :
    handle_event willing read_only two_waiting
    ≡ some (
      ok tt,
      record two_waiting {
        interests = (write_only, 1) ∷ [];
        fired = update two_waiting.fired 0 true;
        log = Call.ctl_mod write_only edge_one_shot none ∷ Call.notified 0 ∷ two_waiting.log;
      },
    )
unfolding handle_event wakes contains intersects fire swap_remove union
one_woken = refl
