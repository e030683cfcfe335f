-- ===== src/ThreadPool/Task.antt =====
-- src/evloop/threadpool/mod.rs: one task of the pool (`_GlobalTask`, `_LocalTask`) and its handles,
-- under any interleaving. A handle (`GlobalTask`, `LocalTask`, or the raw pointer that
-- `spawn_future` posts) stands at a `Place`; a step is one access to shared memory, one call of
-- `poll`, or one hand-over between queues, and an `Event` says which handle steps, or that some
-- thread calls `notify`. What no code can see is kept for the theorems: `notified` (a notification
-- came since the last poll began), and how many notifications and polls there were.
pub mod Counts
pub mod Invariant
pub mod Wakeups
use complete_io.Base.{
  ℕ, zero, suc, ◌+◌, ◌%◌, ◌^◌, Bool, true, false, Option, none, some, List, [], ◌∷◌, ◌++◌,
  get_elem?, swap_remove, if◌then◌else◌, ◌==◌,
}

-- `AtomicUsize` wraps.
abbrev pub usize_mod : ℕ
usize_mod = 2 ^ 64

pub data Kind : Type 0 where
  global local : Kind

pub data Place : Type 0 where
  posted : Place  -- a raw pointer in the event queue, from `spawn_future`
  pushing : Place  -- in `notify`, before the push on the worker's queue
  queued : Place  -- on a work queue
  entered : Place  -- in `do_poll`, before the load
  looping : (init : ℕ) → Place  -- at the head of the loop, with `init_signal_level`
  polling : (init : ℕ) → Place  -- in `poll_future_notify`
  polled : (init : ℕ) → Place  -- `NotReady` came back; before the compare-exchange

pub data Status : Type 0 where
  live : Status
  done : Status  -- `Ready`
  crashed : Status  -- a panic in a worker, which ends the process

pub record Task : Type 0 where
  pub kind : Kind
  pub level : ℕ  -- `signal_level`
  pub places : List Place
  pub status : Status
  pub notified : Bool
  pub notifies : ℕ
  pub polls : ℕ

-- What a call of the future's `poll` comes back with.
pub data Answer : Type 0 where
  ready not_ready failed : Answer

pub data Event : Type 0 where
  notifies_from : (worker : Bool) → Event  -- `Notify::notify`, on a worker's thread or not
  advances : (i : ℕ) → Answer → Event  -- the handle `i` makes its next step

-- `spawn_future`, `spawn_local_future`
abbrev pub start : Kind → Place
start global = posted
start local = queued

unfoldable pub spawn : Kind → Task
spawn kind = record {
  kind = kind;
  level = 1;
  places = start kind ∷ [];
  status = live;
  notified = false;
  notifies = 0;
  polls = 0;
}

-- The branch of `notify` that found the task suspended.
abbrev pub wake : Kind → Bool → Task → Task
wake global true t = record t { places = t.places ++ pushing ∷ [] }
wake global false t = record t { status = crashed }  -- `unimplemented!()`
wake local worker t = record t { status = crashed }  -- `unimplemented!()`

-- `fetch_add(1)`
abbrev pub bump : Task → Task
bump t = record t { level = (t.level + 1) % usize_mod; notified = true; notifies = suc t.notifies }

-- `Notify::notify`: `fetch_add` and the test of the old level.
unfoldable pub notify : Bool → Task → Task
notify worker t = if t.level == 0 then wake t.kind worker (bump t) else bump t

abbrev pub replace : ℕ → Place → List Place → List Place
replace i p [] = []
replace zero p (q ∷ ps) = p ∷ ps
replace (suc i) p (q ∷ ps) = q ∷ replace i p ps

abbrev pub stay : ℕ → Place → Task → Task
stay i p t = record t { places = replace i p t.places }

abbrev pub leave : ℕ → Task → Task
leave i t = record t { places = swap_remove t.places i }

-- One step of `handle_remote_spawn`, of the end of `notify`, of the worker's loop, or of `do_poll`.
unfoldable pub advance : ℕ → Answer → Place → Task → Task
advance i answer posted t = stay i queued t
advance i answer pushing t = stay i queued t
advance i answer queued t = stay i entered t
advance i answer entered t = stay i (looping t.level) t
advance i answer (looping init) t =
    stay i (polling init) (record t { notified = false; polls = suc t.polls })
advance i not_ready (polling init) t = stay i (polled init) t
advance i ready (polling init) t = leave i (record t { status = done })
advance i failed (polling init) t = record t { status = crashed }
advance i answer (polled init) t =
    if t.level == init then leave i (record t { level = 0 }) else stay i (looping t.level) t

abbrev pub advance_at : ℕ → Answer → Option Place → Task → Option Task
advance_at i answer none t = none
advance_at i answer (some p) t = some (advance i answer p t)

abbrev pub if_alive {ℓ} : {A : Type ℓ} → Status → Option A → Option A
if_alive crashed o = none
if_alive _ o = o

-- `none`: there is no such handle, or the process has ended.
unfoldable pub step : Event → Task → Option Task
unfolding notify advance
step (notifies_from worker) t = if_alive t.status (some (notify worker t))
step (advances i answer) t = if_alive t.status (advance_at i answer (get_elem? t.places i) t)

abbrev pub run_rest : (Task → Option Task) → Option Task → Option Task
run_rest f none = none
run_rest f (some t) = f t

unfoldable pub run : List Event → Task → Option Task
unfolding step
run [] t = some t
run (e ∷ es) t = run_rest (run es) (step e t)
