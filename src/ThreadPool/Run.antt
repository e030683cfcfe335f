-- ===== src/ThreadPool/Run.antt =====
-- src/evloop/threadpool/mod.rs: `ThreadPool::run`, on a pool under any interleaving. The call spawns the
-- task `x`, which runs the closure and sends what its future resolves with over a channel
-- (`futures::sync::oneshot`), on which the calling thread waits. The signal level of the task is in
-- ThreadPool/Task; here the task is suspended, has its one handle, or has lost
-- it with the queues of a worker that left, and `wakers` counts the other
-- references to it, those of `futures::task::current`. When the last reference goes, so do the future
-- and the sender. `resolved`, `panicked` and `given` (the handle that the closure got) are kept for
-- the theorems.
pub mod Invariant
pub mod Moves
pub mod Wakers
pub mod Verdict
pub mod Idle
pub mod Returns
use complete_io.Base.{
  ℕ, zero, suc, ◌≡◌, refl, ◌+◌, ◌&&◌, ◌||◌, Bool, true, false, Option, none, some, List, [], ◌∷◌,
  get_elem?, occurrences, if◌then◌else◌, ◌==◌, Result, ok, err, panic,
}
use complete_io.ThreadPool.Handles.{LocalHandle, current_worker, start_spawned}
use complete_io.ThreadPool.Workers
use complete_io.ThreadPool.Workers.{
  Pc, Worker, Pool, Action, spawns, works, goes, returns, notifies,
}
use complete_io.ThreadPool.Workers.WorkQueue.{Deque}

-- `futures::sync::oneshot`: what is sent is received, and a sender that is dropped before is a
-- cancellation. `received` is `none` as long as `wait` would block.
pub record Oneshot (A : Type 0) : Type 1 where
  pub Channel : Type 0
  pub channel : Channel
  pub send : A → Channel → Channel
  pub drop_sender : Channel → Channel
  pub received : Channel → Option (Option A)  -- `some none` is `Canceled`
  pub received-channel : received channel ≡ none
  pub received-send :
      (x : A) (c : Channel) → received c ≡ none → received (send x c) ≡ some (some x)
  pub received-drop_sender :
      (c : Channel) → received c ≡ none → received (drop_sender c) ≡ some none

-- A cell meets these assumptions.
abbrev pub cell : (A : Type 0) → Oneshot A
cell A = record {
  Channel = Option (Option A);
  channel = none;
  send = λ r c. some (some r);
  drop_sender = λ c. some none;
  received = λ c. c;
  received-channel = refl;
  received-send = λ r c h. refl;
  received-drop_sender = λ c h. refl;
}

-- Where the future of the task stands: `future::lazy` that was not polled, the future of the closure
-- (or either of them, when the task has lost its handle), a panic on its way out of `do_poll`, or nothing
-- that is polled again.
pub data Stage : Type 0 where
  lazy driving unwinding gone : Stage

-- What a poll of the closure's future comes back with.
pub data Answer (A : Type 0) : Type 0 where
  ready : A → Answer A
  not_ready : Answer A
  panics : Answer A

pub data Event (A : Type 0) : Type 0 where
  elsewhere : Workers.Event → Event A  -- a step of the pool that is not one of those below
  enters : (worker : ℕ) (busy : Bool) → Event A  -- the worker steals the task, and polls it
  discards : (worker : ℕ) → Event A  -- the worker leaves, and drops the handle with its queues
  answers : (again : Bool) → Answer A → Event A  -- a poll; `do_poll` may poll `again` at once
  unwinds : Event A  -- the panic comes to `catch_unwind`
  keeps : Event A  -- in a poll, the future keeps a waker
  wakes : (worker : ℕ) → Event A  -- a waker notifies the suspended task, on a worker's thread
  forgets : Event A  -- a waker is dropped

module _ {A : Type 0} (deque : Deque) (oneshot : Oneshot A) (address x : ℕ) where
  open oneshot use {Channel, channel, send, drop_sender, received}

  pub record Call : Type 0 where
    pub pool : Pool deque
    pub polled_by : Option ℕ  -- the worker that is in `do_poll` of the task
    pub stage : Stage
    pub suspended : Bool  -- or the handle was dropped with the queues of a worker
    pub lost : Bool  -- the latter: no notification makes a handle again
    pub wakers : ℕ
    pub rx : Channel
    pub given : Option LocalHandle
    pub resolved : Option A
    pub panicked : Bool

  -- `oneshot::channel()`, and `spawn` of the task.
  abbrev pub spawned : Option (Pool deque) → Option Call
  spawned none = none
  spawned (some p) = some (record {
    pool = p;
    polled_by = none;
    stage = lazy;
    suspended = false;
    lost = false;
    wakers = 0;
    rx = channel;
    given = none;
    resolved = none;
    panicked = false;
  })

  unfoldable pub call : Pool deque → Option Call
  call p = spawned (Workers.step deque (spawns x) p)

  -- `rx.wait().expect(..)`: `none` while the thread waits.
  abbrev pub awaited : Option (Option A) → Option (Result A)
  awaited none = none
  awaited (some none) = some panic
  awaited (some (some r)) = some (ok r)

  unfoldable pub returned : Call → Option (Result A)
  returned c = awaited (received c.rx)

  -- References to the task are its handle, unless it is suspended or a panic has dropped it, and the
  -- wakers. When the last one goes, so does the sender, if it is not used.
  abbrev pub released : Call → Call
  released c = if c.wakers == 0 then record c { stage = gone; rx = drop_sender c.rx } else c

  abbrev pub unwound : Call → Call
  unwound c = if c.wakers == 0 then record c { rx = drop_sender c.rx } else c

  abbrev pub in_pool : (Pool deque → Call) → Option (Pool deque) → Option Call
  in_pool f none = none
  in_pool f (some p) = some (f p)

  abbrev pub returns_of : Option ℕ → Workers.Event → Bool
  returns_of (some i) (works j (returns fine)) = i == j
  returns_of _ _ = false

  -- How often a handle of the task was made, polled or dropped.
  abbrev pub uses : Pool deque → ℕ
  uses p = occurrences x p.started + (occurrences x p.polled + occurrences x p.dropped)

  abbrev pub apart : Call → Option (Pool deque) → Option Call
  apart c none = none
  apart c (some p) = if uses p == uses c.pool then some (record c { pool = p }) else none

  -- `steal_weak` has found the task. Its handle is the only one (ThreadPool/Task): the task is not
  -- suspended, and no worker polls it.
  abbrev pub entered : Option ℕ → Bool → ℕ → Call → Option (Pool deque) → Option Call
  entered none false i c (some p) =
      if occurrences x p.polled == suc (occurrences x c.pool.polled)
      then some (record c { pool = p; polled_by = some i })
      else none
  entered _ _ i c _ = none

  abbrev pub suspend : Call → Call
  suspend c = released (record c { suspended = true })

  -- A worker leaves, with the handle of the task on its queue. The signal level of the task stays above
  -- 0, so that no notification queues it again.
  abbrev pub discarded : Option (Pool deque) → Call → Option Call
  discarded none c = none
  discarded (some p) c =
      if occurrences x p.dropped == suc (occurrences x c.pool.dropped)
      then some (suspend (record c { pool = p; polled_by = none; stage = driving; lost = true }))
      else none

  abbrev pub discard : Option ℕ → Bool → Stage → Option (Pool deque) → Call → Option Call
  discard none false lazy o c = discarded o c
  discard none false driving o c = discarded o c
  discard _ _ _ o c = none

  -- The closure's future comes back; the worker `i` is in `do_poll`.
  unfoldable pub resume : ℕ → Bool → Answer A → Call → Option Call
  resume i again (ready r) c =
      in_pool
        (λ p. record c {
          pool = p;
          polled_by = none;
          stage = gone;
          rx = send r c.rx;
          resolved = some r;
        })
        (Workers.step deque (works i (returns true)) c.pool)
  resume i true not_ready c = some (record c { stage = driving })
  resume i false not_ready c =
      in_pool (λ p. suspend (record c { pool = p; polled_by = none; stage = driving }))
        (Workers.step deque (works i (returns true)) c.pool)
  resume i again panics c = some (unwound (record c { stage = unwinding; panicked = true }))

  abbrev pub launch : Result LocalHandle → ℕ → Bool → Answer A → Call → Option Call
  launch (ok h) i again a c = resume i again a (record c { given = some h })
  launch (err e) i again a c = none
  launch panic i again a c = some (unwound (record c { stage = unwinding; panicked = true }))

  abbrev pub started : Option (Worker deque) → ℕ → Result LocalHandle
  started none i = panic
  started (some w) i = start_spawned (λ h. h) (current_worker w.pc i address) address

  -- A poll of the task: the closure of `future::lazy` is called in the first one.
  unfoldable pub poll : Stage → ℕ → Bool → Answer A → Call → Option Call
  unfolding resume
  poll lazy i again a c = launch (started (get_elem? c.pool.threads i) i) i again a c
  poll driving i again a c = resume i again a c
  poll unwinding i again a c = none
  poll gone i again a c = none

  abbrev pub poll_by : Option ℕ → Bool → Answer A → Call → Option Call
  poll_by none again a c = none
  poll_by (some i) again a c = poll c.stage i again a c

  abbrev pub unwind : Option ℕ → Stage → Call → Option Call
  unwind (some i) unwinding c =
      in_pool (λ p. record c { pool = p; polled_by = none; stage = gone })
        (Workers.step deque (works i (returns false)) c.pool)
  unwind _ _ c = none

  abbrev pub keep : Option ℕ → Stage → Call → Option Call
  keep (some i) lazy c = some (record c { wakers = suc c.wakers })
  keep (some i) driving c = some (record c { wakers = suc c.wakers })
  keep _ _ c = none

  -- `notify` of the suspended task, on the thread of the worker `i`: its handle is queued again.
  abbrev pub wake : ℕ → Bool → Bool → ℕ → Call → Option Call
  wake i true false (suc n) c =
      in_pool (λ p. record c { pool = p; suspended = false })
        (Workers.step deque (works i (notifies x)) c.pool)
  wake i _ _ _ c = none

  abbrev pub forgotten : Bool → Stage → Call → Call
  forgotten true stage c = released c
  forgotten false unwinding c = unwound c
  forgotten false stage c = c

  abbrev pub forget : ℕ → Call → Option Call
  forget zero c = none
  forget (suc n) c = some (forgotten c.suspended c.stage (record c { wakers = n }))

  unfoldable pub happen : Event A → Call → Option Call
  unfolding poll
  happen (elsewhere e) c =
      if returns_of c.polled_by e then none else apart c (Workers.step deque e c.pool)
  happen (enters i busy) c =
      entered c.polled_by c.suspended i c (Workers.step deque (works i (goes busy)) c.pool)
  happen (discards i) c =
      discard c.polled_by c.suspended c.stage (Workers.step deque (works i (goes false)) c.pool) c
  happen (answers again a) c = poll_by c.polled_by again a c
  happen unwinds c = unwind c.polled_by c.stage c
  happen keeps c = keep c.polled_by c.stage c
  happen (wakes i) c = wake i c.suspended c.lost c.wakers c
  happen forgets c = forget c.wakers c

  -- Nothing happens after the end of the process.
  unfoldable pub step : Event A → Call → Option Call
  unfolding happen
  step e c = if c.pool.ended then none else happen e c

  -- The calls of `run` on the pool `p`, with what happens during them.
  pub data Calls (p : Pool deque) : Call → Type 0 where
    begins : {c : Call} → call p ≡ some c → Calls p c
    steps : {c d : Call} (e : Event A) → Calls p c → step e c ≡ some d → Calls p d
