-- ===== src/Epoll/Turn.antt =====
-- src/epoll/mod.rs: `Inner::poll`, from the return of epoll_wait on. `S` is what the handlers change;
-- which registrations still exist (`alive`, by the pointer in the event) and what their handlers do
-- (`handle`) are parameters. The timeout is in Iocp/Timeouts, the thread of the interrupt in Queue.
pub mod Dispatch
pub mod Sockets
use complete_io.Base.{
  ℕ, Bool, true, false, Option, none, some, List, [], ◌∷◌, length, if◌then◌else◌, IoError,
  interrupted, Result, ok, err,
}
use complete_io.Epoll.Mask.{EventMask, from_bits_truncate}

-- `epoll_event`
pub record EpollEvent : Type 0 where
  pub events : ℕ
  pub pointer : ℕ

-- What epoll_wait or epoll_pwait comes back with: the events, none for a timeout, or the error.
pub data Waited : Type 0 where
  filled : List EpollEvent → Waited
  failed : IoError → Waited

module _ {S : Type 0} (alive : ℕ → S → Bool) (handle : ℕ → EventMask → S → S) where
  -- One event: `weak.upgrade()`, and the handler.
  unfoldable pub deliver_one : EpollEvent → S → S
  deliver_one e s =
      if alive e.pointer s then handle e.pointer (from_bits_truncate e.events) s else s

  -- The loop over the events.
  unfoldable pub deliver_all : List EpollEvent → S → S
  unfolding deliver_one
  deliver_all [] s = s
  deliver_all (e ∷ es) s = deliver_all es (deliver_one e s)

  -- The part after the wait, which both kinds of turn come to.
  unfoldable pub turned : List EpollEvent → S → Result ℕ × S
  unfolding deliver_all
  turned [] s = (ok 0, s)
  turned (e ∷ es) s = (ok (length (e ∷ es)), deliver_all (e ∷ es) s)

  -- A turn with an interrupt.
  unfoldable pub poll_interruptible : Waited → S → Result ℕ × S
  unfolding turned
  poll_interruptible (filled es) s = turned es s
  poll_interruptible (failed e) s = if interrupted e then (ok 0, s) else (err e, s)

  -- A turn without one, on what epoll_wait comes back with, call after call; `none` if it waits after
  -- the last of them.
  unfoldable pub poll : List Waited → S → Option (Result ℕ × S)
  unfolding turned
  poll [] s = none
  poll (filled es ∷ rest) s = some (turned es s)
  poll (failed e ∷ rest) s =
      let again = poll rest s in if interrupted e then again else some (err e, s)
