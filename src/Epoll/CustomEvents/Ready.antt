-- ===== src/Epoll/CustomEvents/Ready.antt =====
-- src/epoll/mod.rs: a custom event whose handler does not run can be fired.
use complete_io.Base.{
  ℕ, Bool, subst, zero, suc, ◌<◌, ◌≡◌, refl, sym, ◌∙◌, true, false, Option, none, some, ◌==◌, arith,
  of_some, then_some, else_some,
}
use complete_io.Epoll.CustomEvents.Outside.{EventFd, DataQueue}
use complete_io.Epoll.CustomEvents.{
  Stage, idle, reading, draining, rearming, crashed, Event, pushes, writes, fires, handles,
  new_custom_event, post, write_one, fire, after_read, after_pop, handle, step,
}
use complete_io.Epoll.CustomEvents.Upkeep.{State, Inv, new-Inv, step-Inv}

module _ (outside : EventFd) (data_queue : DataQueue) where
  open outside use {Fd, count, create, write, read, count-create, count-write, read_readable}
  open data_queue use {Queue, contents, new, push, try_pop, try_pop_none, try_pop_some}

  -- Between its handlers a custom event is armed, and a handler that was called finds its eventfd
  -- readable.
  abbrev pub IsReady : Stage → State outside data_queue → Type 0
  IsReady idle c = c.armed ≡ true
  IsReady reading c = 0 < count c.fd
  IsReady s c = Unit {0}

  same-IsReady :
      (s : Stage) (c d : State outside data_queue)
      → d.armed ≡ c.armed
      → (0 < count c.fd → 0 < count d.fd)
      → IsReady s c
      → IsReady s d
  same-IsReady idle c d a f r = a ∙ r
  same-IsReady reading c d a f r = f r
  same-IsReady draining c d a f r = tt
  same-IsReady rearming c d a f r = tt
  same-IsReady crashed c d a f r = tt

  abbrev pub Readied : State outside data_queue → Type 0
  Readied d = IsReady d.stage d

  write-IsReady :
      (fine : Bool) (n : ℕ) (c d : State outside data_queue)
      → IsReady c.stage c
      → write_one outside data_queue fine n c ≡ some d
      → Readied d
  unfolding write_one
  write-IsReady fine zero c d r e = cc
  write-IsReady true (suc n) c d r e =
      of_some Readied _ d e (same-IsReady c.stage c _ refl (λ h. omega (arith, count-write c.fd)) r)
  write-IsReady false (suc n) c d r e =
      of_some Readied _ d (else_some (count c.fd == 0) _ d e).1
        (same-IsReady c.stage c _ refl (λ h. h) r)

  pop-IsReady :
      (o : Option (ℕ × Queue)) (c : State outside data_queue)
      → c.stage ≡ draining
      → Readied (after_pop outside data_queue o c)
  pop-IsReady none c q = tt
  pop-IsReady (some (x, r)) c q =
      subst (λ s. IsReady s (after_pop outside data_queue (some (x, r)) c)) (sym q) tt

  read-IsReady :
      (o : Option Fd) (c : State outside data_queue) → Readied (after_read outside data_queue o c)
  read-IsReady none c = tt
  read-IsReady (some g) c = tt

  handle-IsReady :
      (fine : Bool) (s : Stage) (c d : State outside data_queue)
      → c.stage ≡ s
      → handle outside data_queue fine s c ≡ some d
      → Readied d
  unfolding handle
  handle-IsReady fine idle c d q e = cc
  handle-IsReady fine reading c d q e = of_some Readied _ d e (read-IsReady (read c.fd) c)
  handle-IsReady fine draining c d q e = of_some Readied _ d e (pop-IsReady (try_pop c.queue) c q)
  handle-IsReady true rearming c d q e = of_some Readied _ d e refl
  handle-IsReady false rearming c d q e = of_some Readied _ d e tt
  handle-IsReady fine crashed c d q e = cc

  step-IsReady :
      (e : Event) (c d : State outside data_queue)
      → Readied c
      → step outside data_queue e c ≡ some d
      → Readied d
  unfolding step post fire
  step-IsReady (pushes epoll_fd x) c d r e =
      of_some Readied _ d (then_some (epoll_fd == c.epoll_fd) _ d e).1
        (same-IsReady c.stage c _ refl (λ h. h) r)
  step-IsReady (writes fine) c d r e = write-IsReady fine c.unwritten c d r e
  step-IsReady fires c d r e =
      let (readable, out) = else_some (count c.fd == 0) _ d (then_some c.armed _ d e).1 in
      of_some Readied _ d out (ground arith)
  step-IsReady (handles fine) c d r e = handle-IsReady fine c.stage c d refl e

  pub record IsLive (c : State outside data_queue) : Type 0 where
    pub inv : Inv outside data_queue c
    pub ready : Readied c

  pub new-IsLive : (epoll_fd : ℕ) → IsLive (new_custom_event outside data_queue epoll_fd)
  unfolding new_custom_event
  new-IsLive epoll_fd = record { inv = new-Inv outside data_queue epoll_fd; ready = refl }

  pub step-IsLive :
      (e : Event) (c d : State outside data_queue)
      → IsLive c
      → step outside data_queue e c ≡ some d
      → IsLive d
  step-IsLive e c d v q = record {
    inv = step-Inv outside data_queue e c d v.inv q;
    ready = step-IsReady e c d v.ready q;
  }
