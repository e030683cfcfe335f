-- ===== src/ThreadPool/Workers.antt =====
-- src/evloop/threadpool/mod.rs: the pool and its workers, under any interleaving. A task is its
-- number; what it does in a poll comes as events. `CURRENT_WORKER` is set from the start of a worker
-- to its exit, so that the events of a worker's thread name the worker. `started` has each handle
-- that was put on a queue, `polled` each that `do_poll` was called on, and
-- `dropped` each that was dropped with the queues of a worker, for the theorems.
pub mod WorkQueue
pub mod Balance
pub mod Flow
pub mod Positions
pub mod Effects
pub mod Exit
pub mod Drain
pub mod Waiting
pub mod LocalTasks
pub mod Borrow
pub mod Spawned
use complete_io.Base.{
  ℕ, zero, suc, Bool, true, false, Option, none, some, List, [], ◌∷◌, ◌++◌, get_elem?, swap_remove,
  if◌then◌else◌, ◌==◌,
}
use complete_io.ThreadPool.Workers.WorkQueue.{Deque, Steal, stolen, empty, inconsistent}

-- Where the thread of a worker stands in `run_worker`.
pub data Pc : Type 0 where
  checking : Pc  -- before `active.load`
  locals : Pc  -- before `pop_front`
  polling_local : Pc  -- in `do_poll` of a local task
  stealing : Pc  -- before `steal_weak`
  polling : Pc  -- in `do_poll` of a global task
  turning : (wait0 : Bool) → Pc  -- in `turn`, with the timeout 0 or with none
  leaving : Pc  -- after the loop
  exited : Pc

-- What happens on the thread of a worker.
pub data Action : Type 0 where
  goes : (busy : Bool) → Action  -- its next step of `run_worker`
  spawns_local : (task : ℕ) → Action  -- `spawn_local_future`
  notifies : (task : ℕ) → Action  -- `_GlobalTask::notify` of a suspended task
  takes : Action  -- the custom event: `handle_remote_spawn`
  returns : (fine : Bool) → Action  -- from `do_poll` or from `turn`; or it panics, or fails

pub data Event : Type 0 where
  spawns : (task : ℕ) → Event  -- `spawn_future`, on any thread
  shuts_down : Event  -- `begin_shutdown`
  works : (worker : ℕ) → Action → Event

abbrev pub one_more : Option ℕ → Option ℕ
one_more none = none
one_more (some k) = some (suc k)

-- The index of the first such element: `iter().position(…)`.
abbrev pub position : ℕ → List ℕ → Option ℕ
position x [] = none
position x (y ∷ ys) = if y == x then some 0 else one_more (position x ys)

-- `range a n` is the numbers from `a` on.
abbrev pub range : ℕ → ℕ → List ℕ
range a zero = []
range a (suc n) = a ∷ range (suc a) n

module _ {A : Type 0} where
  abbrev pub replicate : ℕ → A → List A
  replicate zero x = []
  replicate (suc n) x = x ∷ replicate n x

  abbrev pub set : List A → ℕ → A → List A
  set [] i y = []
  set (x ∷ xs) zero y = y ∷ xs
  set (x ∷ xs) (suc i) y = x ∷ set xs i y

-- `current_worker_handle`: the worker of this thread, with the address of its pool, and the pool that
-- asks.
unfoldable pub current_worker_handle : Option (ℕ × ℕ) → ℕ → Option ℕ
current_worker_handle none pool = none
current_worker_handle (some (worker, own_pool)) pool =
    if own_pool == pool then some worker else none

module _ (deque : Deque) where
  open deque use {Queue, contents, new, push, steal_weak}

  -- `WorkerSelf`. `borrowed` is the state of the `RefCell` of `local_work_queue`.
  pub record Worker : Type 0 where
    pub work_queue : Queue
    pub local_work_queue : List ℕ
    pub borrowed : Bool
    pub pc : Pc

  -- `_ThreadPool`. `posted` is what the custom event has not handled.
  pub record Pool : Type 0 where
    pub active : Bool
    pub posted : List ℕ
    pub registered : List ℕ  -- `workers`
    pub threads : List Worker
    pub started : List ℕ
    pub polled : List ℕ
    pub dropped : List ℕ
    pub ended : Bool  -- `process::exit(101)`

  abbrev pub fresh : Worker
  fresh = record { work_queue = new; local_work_queue = []; borrowed = false; pc = checking }

  -- `with_concurrency`
  unfoldable pub with_concurrency : ℕ → Pool
  with_concurrency concurrency = record {
    active = true;
    posted = [];
    registered = range 0 concurrency;
    threads = replicate concurrency fresh;
    started = [];
    polled = [];
    dropped = [];
    ended = false;
  }

  abbrev pub put : ℕ → Worker → Pool → Pool
  put i w p = record p { threads = set p.threads i w }

  -- A panic on a worker's thread: `catch_unwind`, and the process ends.
  abbrev pub crash : Pool → Pool
  crash p = record p { ended = true }

  -- `while let Some(task) = local_work_queue.borrow_mut().pop_front()`. The guard of the borrow lives to
  -- the end of the body, so that the cell is borrowed while the task is polled.
  unfoldable pub pop_local : List ℕ → ℕ → Worker → Pool → Pool
  pop_local [] i w p = put i (record w { pc = stealing }) p
  pop_local (x ∷ rest) i w p =
      put i (record w { local_work_queue = rest; borrowed = true; pc = polling_local })
        (record p { polled = p.polled ++ x ∷ [] })

  unfoldable pub after_steal : Steal Queue → ℕ → Worker → Pool → Pool
  after_steal (stolen x rest) i w p =
      put i (record w { work_queue = rest; pc = polling })
        (record p { polled = p.polled ++ x ∷ [] })
  after_steal empty i w p = put i (record w { pc = turning false }) p
  after_steal inconsistent i w p = put i (record w { pc = turning true }) p

  -- The exit of a worker: `position`, `expect` and `swap_remove`. Then `WorkerSelf` is dropped, with the
  -- tasks that are left on its queues.
  unfoldable pub leave : Option ℕ → ℕ → Worker → Pool → Pool
  leave none i w p = crash p
  leave (some k) i w p =
      put i (record w { work_queue = new; local_work_queue = []; pc = exited })
        (record p {
          registered = swap_remove p.registered k;
          dropped = p.dropped ++ (contents w.work_queue ++ w.local_work_queue);
        })

  -- The steps of `run_worker`.
  unfoldable pub go : Bool → Pc → ℕ → Worker → Pool → Option Pool
  unfolding pop_local after_steal leave
  go busy checking i w p = some (put i (record w { pc = if p.active then locals else leaving }) p)
  go busy locals i w p = some (pop_local w.local_work_queue i w p)
  go busy stealing i w p = some (after_steal (steal_weak busy w.work_queue) i w p)
  go busy leaving i w p = some (leave (position i p.registered) i w p)
  go busy polling_local i w p = none
  go busy polling i w p = none
  go busy (turning wait0) i w p = none
  go busy exited i w p = none

  abbrev pub push_front : ℕ → ℕ → Worker → Pool → Pool
  push_front x i w p =
      put i (record w { local_work_queue = x ∷ w.local_work_queue })
        (record p { started = p.started ++ x ∷ [] })

  -- `local_work_queue.borrow_mut().push_front(..)`: `borrow_mut` panics if the cell is borrowed.
  abbrev pub push_local : ℕ → ℕ → Worker → Pool → Pool
  push_local x i w p = if w.borrowed then crash p else push_front x i w p

  -- `spawn_local_future`, from a poll or from a handler of a turn.
  unfoldable pub spawn_local : ℕ → Pc → ℕ → Worker → Pool → Option Pool
  spawn_local x polling_local i w p = some (push_local x i w p)
  spawn_local x polling i w p = some (push_local x i w p)
  spawn_local x (turning wait0) i w p = some (push_local x i w p)
  spawn_local x pc i w p = none

  abbrev pub push_work : ℕ → ℕ → Worker → Pool → Pool
  push_work x i w p =
      put i (record w { work_queue = push x w.work_queue })
        (record p { started = p.started ++ x ∷ [] })

  -- The push of `_GlobalTask::notify`, from a poll or from a handler of a turn.
  unfoldable pub notify : ℕ → Pc → ℕ → Worker → Pool → Option Pool
  notify x polling_local i w p = some (push_work x i w p)
  notify x polling i w p = some (push_work x i w p)
  notify x (turning wait0) i w p = some (push_work x i w p)
  notify x pc i w p = none

  -- `handle_remote_spawn`, of the next datum in the custom event, on a worker's thread.
  unfoldable pub handle_remote_spawn : Pc → List ℕ → ℕ → Worker → Pool → Option Pool
  handle_remote_spawn (turning wait0) (x ∷ rest) i w p =
      some (put i (record w { work_queue = push x w.work_queue }) (record p { posted = rest }))
  handle_remote_spawn pc posted i w p = none

  -- The end of `do_poll` or of `turn`: back to the loop, or a panic. After a local task the guard of the
  -- borrow is dropped.
  unfoldable pub come_back : Pc → Bool → ℕ → Worker → Pool → Option Pool
  come_back polling_local true i w p = some (put i (record w { borrowed = false; pc = locals }) p)
  come_back polling true i w p = some (put i (record w { pc = stealing }) p)
  come_back (turning wait0) true i w p = some (put i (record w { pc = checking }) p)
  come_back polling_local false i w p = some (crash p)
  come_back polling false i w p = some (crash p)
  come_back (turning wait0) false i w p = some (crash p)
  come_back pc fine i w p = none

  unfoldable pub act : Action → ℕ → Worker → Pool → Option Pool
  unfolding go spawn_local notify handle_remote_spawn come_back
  act (goes busy) i w p = go busy w.pc i w p
  act (spawns_local x) i w p = spawn_local x w.pc i w p
  act (notifies x) i w p = notify x w.pc i w p
  act takes i w p = handle_remote_spawn w.pc p.posted i w p
  act (returns fine) i w p = come_back w.pc fine i w p

  abbrev pub act_at : Option Worker → Action → ℕ → Pool → Option Pool
  act_at none a i p = none
  act_at (some w) a i p = act a i w p

  -- `spawn_future`, and the other events of a pool whose process has not ended.
  unfoldable pub happen : Event → Pool → Option Pool
  unfolding act
  happen (spawns x) p =
      some (record p { posted = p.posted ++ x ∷ []; started = p.started ++ x ∷ [] })
  happen shuts_down p = some (record p { active = false })
  happen (works i a) p = act_at (get_elem? p.threads i) a i p

  unfoldable pub step : Event → Pool → Option Pool
  unfolding happen
  step e p = if p.ended then none else happen e p

  abbrev pub run_rest : (Pool → Option Pool) → Option Pool → Option Pool
  run_rest f none = none
  run_rest f (some p) = f p

  unfoldable pub run : List Event → Pool → Option Pool
  unfolding step
  run [] p = some p
  run (e ∷ es) p = run_rest (run es) (step e p)
