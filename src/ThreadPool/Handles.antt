-- ===== src/ThreadPool/Handles.antt =====
-- src/evloop/threadpool/mod.rs: the handles of a pool, and how they find the worker of the thread they
-- are used on. A pool is the number of its address.
use complete_io.Base.{
  ℕ, Bool, true, ◌≡◌, refl, Option, none, some, Result, ok, panic, if◌then◌else◌, ◌==◌, ◌&&◌,
  Bool-cases, inl, inr, false,
}
use complete_io.ThreadPool.Workers.{
  Pc, checking, locals, polling_local, stealing, polling, turning, leaving, exited,
  current_worker_handle,
}

-- `LocalHandle`: the pool of `global`, and the worker of `worker_self`.
pub record LocalHandle : Type 0 where
  pub pool : ℕ
  pub worker : ℕ

-- `CURRENT_WORKER` on the thread of a worker: set before the loop of `run_worker`, cleared behind it.
unfoldable pub current_worker : Pc → ℕ → ℕ → Option (ℕ × ℕ)
current_worker leaving worker pool = none
current_worker exited worker pool = none
current_worker pc worker pool = some (worker, pool)

abbrev pub with_worker : ℕ → Option ℕ → Option LocalHandle
with_worker pool none = none
with_worker pool (some worker) = some (record { pool = pool; worker = worker })

-- `Handle::local`, and `ThreadPool::local_handle`
unfoldable pub local : Option (ℕ × ℕ) → ℕ → Option LocalHandle
unfolding current_worker_handle
local current pool = with_worker pool (current_worker_handle current pool)

abbrev pub expected {ℓ} : {A : Type ℓ} → (LocalHandle → A) → Option LocalHandle → Result A
expected f none = panic
expected f (some handle) = ok (f handle)

-- The closure that `Handle::spawn` hands to `future::lazy`, called on a thread.
unfoldable pub start_spawned {ℓ} : {A : Type ℓ} → (LocalHandle → A) → Option (ℕ × ℕ) → ℕ → Result A
unfolding local
start_spawned f current pool = expected f (local current pool)

abbrev pub in_loop : Pc → Bool
in_loop leaving = false
in_loop exited = false
in_loop pc = true

on_worker {ℓ} :
    {A : Type ℓ} (f : LocalHandle → A) (worker own pool : ℕ)
    → start_spawned f (some (worker, own)) pool
      ≡ (if own == pool then ok (f (record { pool = pool; worker = worker })) else panic)
unfolding start_spawned current_worker_handle
on_worker f worker own pool = elim (Bool-cases (own == pool)) [
  | inl same ↦ rw same refl
  | inr other ↦ rw other refl
]

-- The closure of a future that `spawn` made gets, on the thread of a worker in its loop, a handle of that
-- worker if the worker is of the same pool, and panics on every other thread of a worker.
pub start_spawned_lem {ℓ} :
    {A : Type ℓ} (f : LocalHandle → A) (pc : Pc) (worker own pool : ℕ)
    → start_spawned f (current_worker pc worker own) pool ≡ (
        if in_loop pc && (own == pool)
        then ok (f (record { pool = pool; worker = worker }))
        else panic)
unfolding start_spawned current_worker
start_spawned_lem f checking worker own pool = on_worker f worker own pool
start_spawned_lem f locals worker own pool = on_worker f worker own pool
start_spawned_lem f polling_local worker own pool = on_worker f worker own pool
start_spawned_lem f stealing worker own pool = on_worker f worker own pool
start_spawned_lem f polling worker own pool = on_worker f worker own pool
start_spawned_lem f (turning wait0) worker own pool = on_worker f worker own pool
start_spawned_lem f leaving worker own pool = refl
start_spawned_lem f exited worker own pool = refl
