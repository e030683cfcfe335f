-- ===== src/Tests/EventLoops.antt =====
-- Closures that spawn closures on the event loops of src/evloop.
use complete_io.Base.{
  ℕ, ◌≡◌, refl, ap, Option, none, some, [], ◌∷◌, ok, if◌then◌else◌, ◌==◌, ==_iff, then_some,
  of_some,
}
use complete_io.ThreadPool.Workers.{polling}
use complete_io.EventLoop.Client.{nested}
use complete_io.EventLoop.Pool.{thread_pool, pool_nested_spawns}
use complete_io.EventLoop.Tokio.{Reactor, tokio_core}

-- Worker 1 of the pool at 4096 calls a closure, which spawns one that worker 0 calls.
pool_nested_spawns_example :
    nested thread_pool (some (polling, 1, 4096) ∷ some (polling, 0, 4096) ∷ []) 4096 ≡ ok 4096
pool_nested_spawns_example =
    pool_nested_spawns (some (polling, 1, 4096) ∷ some (polling, 0, 4096) ∷ []) 4096

-- A reactor is a number, of which its handles are copies; a thread runs a reactor or none.
abbrev promote : Option ℕ → ℕ → Option ℕ
promote none r = none
promote (some c) r = if c == r then some r else none

promoted : (t : Option ℕ) (r h : ℕ) → promote t r ≡ some h → h ≡ r
promoted none r h e = cc
promoted (some c) r h e = of_some (λ h. h ≡ r) r h (then_some (c == r) _ h e).1 refl

promoted_runs : (t : Option ℕ) (c h : ℕ) → promote t c ≡ some h → t ≡ some c
promoted_runs none c h e = cc
promoted_runs (some d) c h e = ap some ((==_iff d c).0 (then_some (d == c) _ h e).0)

abbrev numbers : Reactor
numbers = record {
  Core = ℕ;
  Remote = ℕ;
  Handle = ℕ;
  Thread = Option ℕ;
  Runs = λ t c. t ≡ some c;
  core_handle = λ c. c;
  core_remote = λ c. c;
  handle_remote = λ h. h;
  clone = λ h. h;
  promote = promote;
  running = some;
  call_spawned = λ f t r. ok (f r);
  run_core = λ c f. f (some c);
  handle_remote-core_handle = λ c. refl;
  clone_lem = λ h. refl;
  promoted = promoted;
  promoted_Runs = promoted_runs;
  running-Runs = λ c. refl;
  call_spawned_lem = λ f t c w. (c, refl, refl);
  run_core_lem = λ c f. refl;
}

on_tokio : nested (tokio_core numbers) (some 3 ∷ some 3 ∷ []) 3 ≡ ok 3
on_tokio = refl
