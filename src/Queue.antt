-- ===== src/Queue.antt =====
-- src/queue.rs: `EventQueue::run` drives a future on one thread, woken through `InterruptNotify`, over
-- the epoll queue (src/epoll/mod.rs: `Interrupt`, and the part of `Inner::poll` that publishes the
-- thread). The thread stands at a `Pc`; a step is one access to shared memory or one call. Other
-- threads call `notify` between the steps, and the future may do so during its own poll. When
-- `epoll_pwait` returns is up to the kernel; `signals` counts the calls of `pthread_kill`.
pub mod Wakeups
pub mod Channel
use complete_io.Base.{
  ℕ, zero, suc, ◌≡◌, refl, Bool, true, false, Option, none, some, List, [], ◌∷◌, if◌then◌else◌,
  ◌==◌, Result, ok, err, os, IoError,
}

pub data Pc : Type 0 where
  checking : Pc  -- head of the loop of `run`, before `notify.reset()`
  polling : Pc  -- in `poll_future_notify`
  entering : Pc  -- in `turn_interruptible`, before `thread_id.store(pthread_self())`
  published : Pc  -- before `epoll_pwait`
  blocked : Pc  -- in `epoll_pwait`
  leaving : Pc  -- before `thread_id.store(0)`
  failing : Pc  -- the same, after an error
  returned : Pc  -- `run` has returned
  crashed : Pc  -- the `expect` on the turn has panicked

pub record Driver : Type 0 where
  pub pc : Pc
  pub notified : Bool  -- `InterruptNotify::notified`
  pub thread_id : ℕ  -- `_Interrupt::thread_id`
  pub signals : ℕ
  pub notifies : ℕ
  pub polls : ℕ

pub data Event : Type 0 where
  advances : (ready : Bool) → Event  -- the thread; `ready` is the answer of the future, if it is polled
  notifies_now : Event  -- `notify`, by any thread
  returns : (fine : Bool) → Event  -- `epoll_pwait` returns: with events or `EINTR`, or with an error

-- `InterruptNotify::new`, at the beginning of `run`.
unfoldable pub start : Driver
start = record {
  pc = checking;
  notified = true;
  thread_id = 0;
  signals = 0;
  notifies = 0;
  polls = 0;
}

-- `Interrupt::interrupt`, where `kill` is what `pthread_kill` returns.
unfoldable pub interrupt : (thread_id kill : ℕ) → Result Bool
interrupt thread_id kill =
    if thread_id == 0 then ok false else if kill == 0 then ok true else err (os kill)

-- The signal of `interrupt`.
abbrev pub signal : Driver → Driver
signal d = if d.thread_id == 0 then d else record d { signals = suc d.signals }

-- `InterruptNotify::notify`: `swap(true)`, and an interrupt if the old value was `false`. (An error of
-- `interrupt` is only logged.)
unfoldable pub notify : Driver → Driver
notify d =
    let d' : Driver = record d { notified = true; notifies = suc d.notifies } in
    if d.notified then d' else signal d'

-- `InterruptNotify::reset`: `swap(false)`.
unfoldable pub reset : Driver → Bool × Driver
reset d = (d.notified, record d { notified = false })

module _ (self : ℕ) where
  -- The next step of the thread, whose `pthread_self()` is `self`.
  unfoldable pub advance : Bool → Pc → Driver → Option Driver
  unfolding reset
  advance ready checking d =
      let (old, d') = reset d in
      some (
        if old
        then record d' { pc = polling; polls = suc d.polls }
        else record d' { pc = entering })
  advance ready polling d = some (record d { pc = if ready then returned else entering })
  advance ready entering d = some (record d { pc = published; thread_id = self })
  advance ready published d = some (record d { pc = blocked })
  advance ready blocked d = none
  advance ready leaving d = some (record d { pc = checking; thread_id = 0 })
  advance ready failing d = some (record d { pc = crashed; thread_id = 0 })
  advance ready returned d = none
  advance ready crashed d = none

  -- `epoll_pwait` comes back. An error other than `EINTR` makes the turn fail.
  unfoldable pub come_back : Bool → Pc → Driver → Option Driver
  come_back true blocked d = some (record d { pc = leaving })
  come_back false blocked d = some (record d { pc = failing })
  come_back fine pc d = none

  unfoldable pub step : Event → Driver → Option Driver
  unfolding advance notify come_back
  step (advances ready) d = advance ready d.pc d
  step notifies_now d = some (notify d)
  step (returns fine) d = come_back fine d.pc d

  abbrev pub run_rest : (Driver → Option Driver) → Option Driver → Option Driver
  run_rest f none = none
  run_rest f (some d) = f d

  -- A schedule; `none` if an event of it cannot happen.
  unfoldable pub run : List Event → Driver → Option Driver
  unfolding step
  run [] d = some d
  run (e ∷ es) d = run_rest (run es) (step e d)
