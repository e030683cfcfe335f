-- ===== src/Epoll/CustomEvents/Promise.antt =====
-- src/epoll/mod.rs: a custom event of epoll is a FIFO channel to its handler.
use complete_io.Base.{
  ℕ, ◌≡◌, ◌≢◌, refl, sym, ap, ◌∙◌, subst, Bool, true, false, Option, none, some, List, [], ◌++◌,
  ◌==◌, of_some, then_some, else_some, zero, suc,
}
use complete_io.Queue.Channel.{Channel, Move, rests, sends, delivers, Steps, here, next}
use complete_io.Epoll.CustomEvents.Outside.{EventFd, DataQueue}
use complete_io.Epoll.CustomEvents.{
  Stage, idle, reading, draining, rearming, crashed, Event, pushes, writes, fires, handles,
  new_custom_event, post, write_one, fire, after_read, after_pop, handle, step,
}
use complete_io.Epoll.CustomEvents.Upkeep.{State}
use complete_io.Epoll.CustomEvents.Ready.{IsLive, new-IsLive, step-IsLive}
use complete_io.Epoll.CustomEvents.Progress.{catch_up}

module _ (outside : EventFd) (data_queue : DataQueue) where
  open outside use {Fd, count, write, read}
  open data_queue use {Queue, contents, push, try_pop, contents-push, try_pop_some, contents-new}

  abbrev pub channel : List ℕ → List ℕ → Channel ℕ
  channel waiting delivered = record { waiting = waiting; delivered = delivered }

  abbrev pub view : State outside data_queue → Channel ℕ
  view c = channel (contents c.queue) c.handled

  write-Move :
      (fine : Bool) (n : ℕ) (c d : State outside data_queue)
      → write_one outside data_queue fine n c ≡ some d
      → Move (view c) none (view d)
  unfolding write_one
  write-Move fine zero c d e = cc
  write-Move true (suc n) c d e = of_some (λ u. Move (view c) none (view u)) _ d e rests
  write-Move false (suc n) c d e =
      of_some (λ u. Move (view c) none (view u)) _ d (else_some (count c.fd == 0) _ d e).1 rests

  read-Move :
      (o : Option Fd) (c : State outside data_queue)
      → Move (view c) none (view (after_read outside data_queue o c))
  read-Move none c = rests
  read-Move (some g) c = rests

  pop-Move :
      (o : Option (ℕ × Queue)) (c : State outside data_queue)
      → try_pop c.queue ≡ o
      → Move (view c) none (view (after_pop outside data_queue o c))
  pop-Move none c q = rests
  pop-Move (some (x, r)) c q = delivers x (contents r) (try_pop_some c.queue r x q)

  handle-Move :
      (fine : Bool) (s : Stage) (c d : State outside data_queue)
      → handle outside data_queue fine s c ≡ some d
      → Move (view c) none (view d)
  unfolding handle
  handle-Move fine idle c d e = cc
  handle-Move fine reading c d e =
      of_some (λ u. Move (view c) none (view u)) _ d e (read-Move (read c.fd) c)
  handle-Move fine draining c d e =
      of_some (λ u. Move (view c) none (view u)) _ d e (pop-Move (try_pop c.queue) c refl)
  handle-Move true rearming c d e = of_some (λ u. Move (view c) none (view u)) _ d e rests
  handle-Move false rearming c d e = of_some (λ u. Move (view c) none (view u)) _ d e rests
  handle-Move fine crashed c d e = cc

  -- The datum that an event posts.
  abbrev pub posted : Event → Option ℕ
  posted (pushes epoll_fd x) = some x
  posted (writes fine) = none
  posted fires = none
  posted (handles fine) = none

  -- Every step of a poster, of the kernel or of the handler of a custom event is a move of the channel: a
  -- post takes in its datum at the end, and every other step hands the first one to the handler, or
  -- changes nothing of what waits and what was delivered.
  pub epoll_simulates :
      (e : Event) (c d : State outside data_queue)
      → step outside data_queue e c ≡ some d
      → Move (view c) (posted e) (view d)
  unfolding step post fire
  epoll_simulates (pushes epoll_fd x) c d e =
      of_some (λ u. Move (view c) (some x) (view u)) _ d
        (then_some (epoll_fd == c.epoll_fd) _ d e).1
        (subst (λ w. Move (view c) (some x) (channel w c.handled)) (sym (contents-push x c.queue))
          (sends x))
  epoll_simulates (writes fine) c d e = write-Move fine c.unwritten c d e
  epoll_simulates fires c d e =
      of_some (λ u. Move (view c) none (view u)) _ d
        (else_some (count c.fd == 0) _ d (then_some c.armed _ d e).1).1 rests
  epoll_simulates (handles fine) c d e = handle-Move fine c.stage c d e

  Steps-IsLive :
      {c d : State outside data_queue}
      → Steps (step outside data_queue) c d
      → IsLive outside data_queue c
      → IsLive outside data_queue d
  Steps-IsLive here v = v
  Steps-IsLive {c} (next {u = x} e q rest) v =
      Steps-IsLive rest (step-IsLive outside data_queue e c x v q)

  -- In every state that a custom event reaches, unless a re-arm has failed and the handler panicked:
  -- further steps of the posters that have not written yet, of the kernel and of the handler hand all
  -- that waits to the handler, in order, and nothing is left.
  pub epoll_catches_up :
      (epoll_fd : ℕ) (c : State outside data_queue)
      → Steps (step outside data_queue) (new_custom_event outside data_queue epoll_fd) c
      → c.stage ≢ crashed
      → (u : State outside data_queue) × Steps (step outside data_queue) c u
        × (view u ≡ channel [] (c.handled ++ contents c.queue))
  epoll_catches_up epoll_fd c path n =
      let (u, rest, empty, all) =
        catch_up outside data_queue c.stage c refl n
          (Steps-IsLive path (new-IsLive outside data_queue epoll_fd)) in
      (u, rest, ap (λ w. channel w u.handled) empty ∙ ap (channel []) all)
