-- ===== src/EventLoop/Client.antt =====
-- src/evloop/mod.rs: what a client of any event loop may count on when its closures spawn closures, as
-- `tcp_echo` of src/net.rs does with `handle.global().spawn(..)`.
use complete_io.Base.{◌≡◌, refl, ap, ◌∙◌, List, [], ◌∷◌, Result, ok, err, panic}
use complete_io.EventLoop.{EventLoop}

module _ (evloop : EventLoop) where
  open evloop use {Loop, Handle, LocalHandle, Thread, IsWorker, handle, global}

  abbrev pub flat : Result (Result Handle) → Result Handle
  flat (ok r) = r
  flat (err e) = err e
  flat panic = panic

  -- A closure is spawned over the handle `g` and called on the first of these threads. It spawns the
  -- next one over the global handle of the local handle it got, and so on; the last gives its handle.
  abbrev pub nested : List Thread → Handle → Result Handle
  nested [] g = ok g
  nested (t ∷ ts) g = flat (evloop.start_spawned (λ h. nested ts (global h)) t g)

  abbrev pub AllWorkers : List Thread → Loop → Type 0
  AllWorkers [] l = Unit {0}
  AllWorkers (t ∷ ts) l = IsWorker t l × AllWorkers ts l

  -- However deep closures spawn closures over the handles they got, on whichever workers of the loop
  -- these are called: none panics, and each has the handle of the loop.
  nested_spawns :
      (ts : List Thread) (l : Loop) → AllWorkers ts l → nested ts (handle l) ≡ ok (handle l)
  nested_spawns [] l w = refl
  nested_spawns (t ∷ ts) l w =
      let (h, same, called) = evloop.spawned_on_worker (λ h. nested ts (global h)) t l w.0 in
      ap flat called ∙ ap (nested ts) same ∙ nested_spawns ts l w.1
