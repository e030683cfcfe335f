-- ===== src/EventLoop/Tokio.antt =====
-- src/evloop/tokio.rs: the reactor of tokio-core as an event loop. tokio-core is no part of this
-- repository: `Reactor` has what the adapter calls, with what tokio-core documents of it.
use complete_io.Base.{◌≡◌, refl, sym, ap, ◌∙◌, Option, some, Result, ok, panic}
use complete_io.EventLoop.{EventLoop}

pub record Reactor : Type 1 where
  pub Core : Type 0
  pub Remote : Type 0
  pub Handle : Type 0
  pub Thread : Type 0
  pub Runs : Thread → Core → Type 0  -- the thread is the one of the reactor, which is running
  pub core_handle : Core → Handle  -- `Core::handle`
  pub core_remote : Core → Remote  -- `Core::remote`
  pub handle_remote : Handle → Remote  -- `Handle::remote`
  pub clone : Handle → Handle
  pub promote : Thread → Remote → Option Handle  -- `Remote::handle`
  pub running : Core → Thread  -- the thread in `Core::run`
  pub call_spawned : {A : Type 0} → (Handle → A) → Thread → Remote → Result A  -- by `Remote::spawn`
  pub run_core : {A : Type 0} → Core → (Thread → A) → A  -- `Core::run` of what a future comes to
  pub handle_remote-core_handle : (c : Core) → handle_remote (core_handle c) ≡ core_remote c
  pub clone_lem : (h : Handle) → clone h ≡ h
  pub promoted : (t : Thread) (r : Remote) (h : Handle) → promote t r ≡ some h → handle_remote h ≡ r
  pub promoted_Runs :
      (t : Thread) (c : Core) (h : Handle) → promote t (core_remote c) ≡ some h → Runs t c
  pub running-Runs : (c : Core) → Runs (running c) c
  pub call_spawned_lem :
      {A : Type 0} (f : Handle → A) (t : Thread) (c : Core)
      → Runs t c
      → (h : Handle) × (handle_remote h ≡ core_remote c)
        × (call_spawned f t (core_remote c) ≡ ok (f h))
  pub run_core_lem : {A : Type 0} (c : Core) (f : Thread → A) → run_core c f ≡ f (running c)

module _ (reactor : Reactor) where
  open reactor use {
    Core, Remote, Handle, Thread, Runs, core_handle, core_remote, handle_remote, clone, promote,
    running, call_spawned, run_core,
  }

  -- `EventLoop::handle` and `EventLoop::local_handle` of `Core`. The core is at hand only on its own
  -- thread.
  abbrev pub handle : Core → Remote
  handle c = core_remote c

  abbrev pub local_handle : Core → Option Handle
  local_handle c = some (core_handle c)

  -- `EventLoop::run_future`, `EventLoop::run`
  unfoldable pub run_future : {A : Type 0} → (Thread → A) → Core → A
  run_future f c = run_core c f

  unfoldable pub run : {A : Type 0} → (Handle → Thread → A) → Core → A
  run f c = let handle = core_handle c in run_core c (λ t. f handle t)

  -- `Handle::local` of `Remote`
  abbrev pub local : Thread → Remote → Option Handle
  local t r = promote t r

  -- The closure of `Handle::spawn` and of `Handle::spawn_locked`.
  abbrev pub start_spawned : {A : Type 0} → (Handle → A) → Thread → Remote → Result A
  start_spawned f t r = call_spawned f t r

  -- `Handle::spawn_future`
  abbrev pub spawn_future : {A : Type 0} → A → Remote → Result (Unit {0})
  spawn_future f r = panic

  -- `LocalHandle::global`, and the closure of `LocalHandle::spawn_local`
  abbrev pub global : Handle → Remote
  global h = handle_remote h

  abbrev pub start_local : {A : Type 0} → (Handle → A) → Handle → A
  start_local f h = let handle = clone h in f handle

  pub start_local_lem : {A : Type 0} (f : Handle → A) (h : Handle) → start_local f h ≡ f h
  start_local_lem f h = ap f (reactor.clone_lem h)

  pub global-local_handle : (c : Core) (h : Handle) → local_handle c ≡ some h → global h ≡ handle c
  global-local_handle c h e =
      let same : core_handle c ≡ h = cc in
      ap handle_remote (sym same) ∙ reactor.handle_remote-core_handle c

  -- `impl EventLoop for Core`, `impl Handle for Remote`, `impl LocalHandle for Handle`
  abbrev pub tokio_core : EventLoop
  tokio_core = record {
    Loop = Core;
    Handle = Remote;
    LocalHandle = Handle;
    Thread = Thread;
    IsWorker = Runs;
    handle = handle;
    local_handle = λ t c. local_handle c;
    local = local;
    global = global;
    start_spawned = λ f t r. start_spawned f t r;
    start_local = λ f h. start_local f h;
    local_worker = reactor.promoted_Runs;
    global-local = reactor.promoted;
    global-local_handle = λ t c h e. global-local_handle c h e;
    spawned_on_worker = reactor.call_spawned_lem;
    start_local_lem = start_local_lem;
  }

  -- `run` of tokio gives the closure a local handle of the loop, on a thread that is a worker of it, and
  -- comes back with what the closure's future comes to there.
  run_on_worker :
      {A : Type 0} (f : Handle → Thread → A) (c : Core)
      → (h : Handle) × (t : Thread) × (local_handle c ≡ some h)
        × (global h ≡ handle c)
        × Runs t c
        × (run f c ≡ f h t)
  unfolding run
  run_on_worker f c = (
    core_handle c,
    running c,
    refl,
    reactor.handle_remote-core_handle c,
    reactor.running-Runs c,
    reactor.run_core_lem c (λ t. f (core_handle c) t),
  )
