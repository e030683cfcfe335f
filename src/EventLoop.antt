-- ===== src/EventLoop.antt =====
-- src/evloop/mod.rs: the traits `EventLoop`, `Handle` and `LocalHandle`, with what their comments
-- promise. A thread is taken at one moment: what it runs decides which local handles it gets. What
-- `spawn` and `spawn_local` hand on is a closure; `start_spawned` and `start_local` are its call, on
-- the thread that the loop chose.
pub mod Client
pub mod Pool
pub mod Tokio
use complete_io.Base.{◌≡◌, Option, some, Result, ok}

pub record EventLoop : Type 1 where
  pub Loop : Type 0
  pub Handle : Type 0
  pub LocalHandle : Type 0
  pub Thread : Type 0
  pub IsWorker : Thread → Loop → Type 0
  pub handle : Loop → Handle
  pub local_handle : Thread → Loop → Option LocalHandle
  pub local : Thread → Handle → Option LocalHandle
  pub global : LocalHandle → Handle
  pub start_spawned : {A : Type 0} → (LocalHandle → A) → Thread → Handle → Result A
  pub start_local : {A : Type 0} → (LocalHandle → A) → LocalHandle → A
  -- "This function will only return a handle if the current thread is a worker"
  pub local_worker :
      (t : Thread) (l : Loop) (h : LocalHandle) → local t (handle l) ≡ some h → IsWorker t l
  -- "Gets the underlying global `EventLoop` handle"
  pub global-local : (t : Thread) (g : Handle) (h : LocalHandle) → local t g ≡ some h → global h ≡ g
  pub global-local_handle :
      (t : Thread) (l : Loop) (h : LocalHandle) → local_handle t l ≡ some h → global h ≡ handle l
  pub spawned_on_worker :
      {A : Type 0} (f : LocalHandle → A) (t : Thread) (l : Loop)
      → IsWorker t l
      → (h : LocalHandle) × (global h ≡ handle l) × (start_spawned f t (handle l) ≡ ok (f h))
  pub start_local_lem : {A : Type 0} (f : LocalHandle → A) (h : LocalHandle) → start_local f h ≡ f h
