-- ===== src/EventLoop/Pool.antt =====
-- src/evloop/threadpool/mod.rs: the thread pool as an event loop. A pool is the number of its address.
use complete_io.Base.{
  ℕ, ◌≡◌, refl, sym, ap, ◌∙◌, ◌&&◌, Bool, true, false, Option, none, some, List, [], ◌∷◌, ok, panic,
  ◌==◌, if◌then◌else◌, arith,
}
use complete_io.ThreadPool.Workers.{Pc, current_worker_handle}
use complete_io.ThreadPool.Handles.{
  LocalHandle, current_worker, with_worker, local, start_spawned, start_spawned_lem, in_loop,
  expected,
}
use complete_io.EventLoop.{EventLoop}
use complete_io.EventLoop.Client.{nested, flat}

-- A thread: that of a worker of a pool, at a step of `run_worker`, or another one.
abbrev pub Thread : Type 0
Thread = Option (Pc × ℕ × ℕ)

-- `CURRENT_WORKER` on the thread.
abbrev pub current : Thread → Option (ℕ × ℕ)
current none = none
current (some (pc, worker, own)) = current_worker pc worker own

abbrev pub IsPoolWorker : Thread → ℕ → Type 0
IsPoolWorker none pool = ⊥
IsPoolWorker (some (pc, worker, own)) pool = (in_loop pc ≡ true) × (own ≡ pool)

-- `LocalHandle::spawn_local`: the closure gets a clone of the handle.
abbrev pub start_local : {A : Type 0} → (LocalHandle → A) → LocalHandle → A
start_local f h = f (record { pool = h.pool; worker = h.worker })

called : {A : Type 0} (b : Bool) (r : A) (x : A) → (if b then ok r else panic) ≡ ok x → b ≡ true
called true r x e = refl
called false r x e = cc

pub local-IsPoolWorker :
    (t : Thread) (pool : ℕ) (h : LocalHandle)
    → local (current t) pool ≡ some h
    → IsPoolWorker t pool
unfolding local start_spawned
local-IsPoolWorker none pool h e = cc
local-IsPoolWorker (some (pc, worker, own)) pool h e =
    let t =
      called (in_loop pc && (own == pool)) (record { pool = pool; worker = worker }) h
        (sym (start_spawned_lem (λ h. h) pc worker own pool) ∙ ap (expected (λ h. h)) e) in
    ground (arith, t)

global-with_worker :
    (o : Option ℕ) (pool : ℕ) (h : LocalHandle) → with_worker pool o ≡ some h → h.pool ≡ pool
global-with_worker none pool h e = cc
global-with_worker (some w) pool h e =
    let same : record { pool = pool; worker = w } ≡ h = cc in ap (λ h. h.pool) (sym same)

pub global-local :
    (t : Thread) (pool : ℕ) (h : LocalHandle) → local (current t) pool ≡ some h → h.pool ≡ pool
unfolding local
global-local t pool h e = global-with_worker (current_worker_handle (current t) pool) pool h e

pub spawned_on_worker :
    {A : Type 0} (f : LocalHandle → A) (t : Thread) (pool : ℕ)
    → IsPoolWorker t pool
    → (h : LocalHandle) × (h.pool ≡ pool) × (start_spawned f (current t) pool ≡ ok (f h))
spawned_on_worker f none pool w = absurd w
spawned_on_worker f (some (pc, worker, own)) pool (at, same) =
    let here : (in_loop pc && (own == pool)) ≡ true = ground (arith, at, same) in
    (
      record { pool = pool; worker = worker },
      refl,
      start_spawned_lem f pc worker own pool
          ∙ ap (λ b. if b then ok (f (record { pool = pool; worker = worker })) else panic) here,
    )

-- `impl EventLoop for ThreadPool`, `impl Handle for Handle`, `impl LocalHandle for LocalHandle`
abbrev pub thread_pool : EventLoop
thread_pool = record {
  Loop = ℕ;
  Handle = ℕ;
  LocalHandle = LocalHandle;
  Thread = Thread;
  IsWorker = IsPoolWorker;
  handle = λ pool. pool;
  local_handle = λ t pool. local (current t) pool;
  local = λ t pool. local (current t) pool;
  global = λ h. h.pool;
  start_spawned = λ f t pool. start_spawned f (current t) pool;
  start_local = λ f h. start_local f h;
  local_worker = local-IsPoolWorker;
  global-local = global-local;
  global-local_handle = global-local;
  spawned_on_worker = spawned_on_worker;
  start_local_lem = λ f h. refl;
}

-- The thread is a worker of the pool, inside its loop.
abbrev pub is_worker : Thread → ℕ → Bool
is_worker none pool = false
is_worker (some (pc, worker, own)) pool = in_loop pc && (own == pool)

abbrev pub all_workers : List Thread → ℕ → Bool
all_workers [] pool = true
all_workers (t ∷ ts) pool = is_worker t pool && all_workers ts pool

start_spawned_at :
    {A : Type 0} (f : ℕ → A) (t : Thread) (pool : ℕ)
    → start_spawned (λ h. f h.pool) (current t) pool
      ≡ (if is_worker t pool then ok (f pool) else panic)
unfolding start_spawned
start_spawned_at f none pool = refl
start_spawned_at f (some (pc, worker, own)) pool =
    start_spawned_lem (λ h. f h.pool) pc worker own pool

flat_if :
    (b c : Bool) (r : ℕ)
    → flat thread_pool (if b then ok (if c then ok r else panic) else panic)
      ≡ (if b && c then ok r else panic)
flat_if true c r = refl
flat_if false c r = refl

-- Closures that spawn closures over the handles they got, however deep, the next one called on the
-- next of these threads: if all of them are workers of the pool inside their loops, none panics and
-- the last has the handle of the pool; if one is not, the `expect` of `spawn` panics.
pub pool_nested_spawns :
    (ts : List Thread) (pool : ℕ)
    → nested thread_pool ts pool ≡ (if all_workers ts pool then ok pool else panic)
pool_nested_spawns [] pool = refl
pool_nested_spawns (t ∷ ts) pool =
    ap (flat thread_pool) (start_spawned_at (nested thread_pool ts) t pool)
    ∙ ap (λ r. flat thread_pool (if is_worker t pool then ok r else panic))
        (pool_nested_spawns ts pool)
    ∙ flat_if (is_worker t pool) (all_workers ts pool) pool
