-- ===== src/ThreadPool/Run/Verdict.antt =====
-- src/evloop/threadpool/mod.rs: what `ThreadPool::run` comes back with.
use complete_io.Base.{ℕ, ◌≡◌, refl, ap, ◌||◌, false, Option, none, some, of_some, else_some}
use complete_io.ThreadPool.Workers
use complete_io.ThreadPool.Workers.{
  Pc, checking, locals, polling_local, stealing, polling, turning, leaving, exited, Pool, Worker,
  works, goes, returns, notifies, spawns,
}
use complete_io.ThreadPool.Workers.WorkQueue.{Deque}
use complete_io.ThreadPool.Run.{
  Oneshot, Event, elsewhere, enters, discards, answers, unwinds, keeps, wakes, forgets, Call, call,
  spawned, awaited, returned, returns_of, happen, step, Calls, begins, steps,
}
use complete_io.ThreadPool.Run.Invariant.{Inv, poll_by-Inv, verdict}
use complete_io.ThreadPool.Run.Moves.{apart-Inv, entered-Inv, discard-Inv, unwind-Inv}
use complete_io.ThreadPool.Run.Wakers.{keep-Inv, wake-Inv, forget-Inv}

module _ {A : Type 0} (deque : Deque) (oneshot : Oneshot A) (address x : ℕ) where
  open oneshot use {
    Channel, channel, send, drop_sender, received, received-channel, received-send,
    received-drop_sender,
  }

  abbrev CallState : Type 0
  CallState = Call deque oneshot address x

  happen-Inv :
      (e : Event A) (c d : CallState)
      → Inv deque oneshot address x c
      → c.pool.ended ≡ false
      → happen deque oneshot address x e c ≡ some d
      → Inv deque oneshot address x d
  unfolding happen
  happen-Inv (elsewhere e) c d v live q =
      apart-Inv deque oneshot address x (Workers.step deque e c.pool) c d v live
        (else_some (returns_of deque oneshot address x c.polled_by e) _ d q).1
  happen-Inv (enters i busy) c d v live q =
      entered-Inv deque oneshot address x c.polled_by c.suspended i
        (Workers.step deque (works i (goes busy)) c.pool) c d v live refl q
  happen-Inv (discards i) c d v live q =
      discard-Inv deque oneshot address x c.polled_by c.suspended c.stage
        (Workers.step deque (works i (goes false)) c.pool) c d v refl refl q
  happen-Inv (answers again a) c d v live q =
      poll_by-Inv deque oneshot address x c.polled_by again a c d v refl q
  happen-Inv unwinds c d v live q =
      unwind-Inv deque oneshot address x c.polled_by c.stage c d v refl q
  happen-Inv keeps c d v live q =
      keep-Inv deque oneshot address x c.polled_by c.stage c d v refl refl q
  happen-Inv (wakes i) c d v live q =
      wake-Inv deque oneshot address x i c.suspended c.lost c.wakers c.stage c d v refl refl refl q
  happen-Inv forgets c d v live q = forget-Inv deque oneshot address x c.wakers c d v live refl q

  spawned-Inv :
      (o : Option (Pool deque)) (c : CallState)
      → spawned deque oneshot address x o ≡ some c
      → Inv deque oneshot address x c
  spawned-Inv none c q = cc
  spawned-Inv (some p) c q =
      of_some (Inv deque oneshot address x) _ c q
        (record { heard = received-channel; busy = λ n. refl; facts = (refl, refl, refl) })

  Calls-Inv :
      {p : Pool deque} {c : CallState}
      → Calls deque oneshot address x p c
      → Inv deque oneshot address x c
  unfolding call step
  Calls-Inv {p} {c} (begins q) = spawned-Inv (Workers.step deque (spawns x) p) c q
  Calls-Inv {c = d} (steps {c = c} e before q) =
      let (live, moved) = else_some c.pool.ended _ d q in
      happen-Inv e c d (Calls-Inv before) live moved

  pub run_verdict :
      (p : Pool deque) (c : CallState)
      → Calls deque oneshot address x p c
      → returned deque oneshot address x c
        ≡ awaited deque oneshot address x
            (verdict deque oneshot address x c.resolved (c.panicked || c.suspended) c.wakers)
  unfolding returned
  run_verdict p c path = ap (awaited deque oneshot address x) (Calls-Inv path).heard
