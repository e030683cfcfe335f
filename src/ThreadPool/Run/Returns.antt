-- ===== src/ThreadPool/Run/Returns.antt =====
-- src/evloop/threadpool/mod.rs: the way of a call of `run` over an idle worker to its result.
use complete_io.Base.{
  ℕ, ◌≡◌, refl, ap, ◌∙◌, Bool, true, false, none, some, List, [], ◌∷◌, ◌++◌, get_elem?,
  occurrences-append, if◌then◌else◌, ==_iff, Result, ok, panic, arith,
}
use complete_io.ThreadPool.Handles.{LocalHandle, start_spawned_lem}
use complete_io.ThreadPool.Workers.{
  act, go, pop_local, after_steal, handle_remote_spawn, come_back, checking, locals, stealing,
  polling, leaving, turning, takes, goes, returns, Pool, put,
}
use complete_io.ThreadPool.Workers.WorkQueue.{Deque}
use complete_io.ThreadPool.Workers.Drain.{At, worker, polled-At, step-act, put-At}
use complete_io.ThreadPool.Run.{
  Oneshot, gone, poll, resume, launch, started, in_pool, ready, answers, Call, returned, happen,
  step, steps, lazy,
}
use complete_io.ThreadPool.Run.Verdict.{run_verdict}
use complete_io.ThreadPool.Run.Idle.{
  enters-step, alone_stolen, begun, call-begun, idles, Alone, begins, enters_poll, Alone-Calls,
}

module _ {A : Type 0} (deque : Deque) (oneshot : Oneshot A) (address x : ℕ) where
  open deque use {
    Queue, contents, push, contents-push, steal_weak, steal_weak_stolen, steal_weak_empty,
    steal_weak_calm,
  }

  abbrev CallState : Type 0
  CallState = Call deque oneshot address x

  -- The handle that the closure gets, of this pool and of the worker that runs it.
  abbrev pub handle_of : ℕ → LocalHandle
  handle_of i = record { pool = address; worker = i }

  abbrev at_poll : ℕ → Pool deque → Pool deque → CallState
  at_poll i p0 p = record (begun deque oneshot address x p0) { pool = p; polled_by = some i }

  abbrev resolves : ℕ → A → Pool deque → Pool deque → CallState
  resolves i r p0 p = record (begun deque oneshot address x p0) {
    pool = p;
    stage = gone;
    rx = oneshot.send r oneshot.channel;
    given = some (handle_of i);
    resolved = some r;
  }

  launched :
      (i : ℕ) (r : A) (p0 p u : Pool deque) {q : Queue} {ps : List ℕ}
      → At deque i polling q [] ps p
      → act deque (returns true) i (worker deque i polling q []) p ≡ some u
      → step deque oneshot address x (answers false (ready r)) (at_poll i p0 p)
        ≡ some (resolves i r p0 u)
  unfolding step happen poll resume
  launched i r p0 p u {q} v moved =
      let c = at_poll i p0 p in
      let goes_on =
        λ (s : Result LocalHandle). launch deque oneshot address x s i false (ready r) c in
      ap (λ b. if b then none else happen deque oneshot address x (answers false (ready r)) c)
        v.alive
      ∙ ap (λ o. goes_on (started deque oneshot address x o i)) v.at
      ∙ ap goes_on (start_spawned_lem (λ h. h) polling i address address)
      ∙ ap (λ b. goes_on (if b then ok (handle_of i) else panic)) ((==_iff address address).1 refl)
      ∙ ap (in_pool deque oneshot address x (resolves i r p0))
          (step-act deque i p (returns true) v ∙ moved)

  -- The worker takes the task from the custom event, and comes out of the turn.
  taken_up :
      (i : ℕ) (b : Bool) (q : Queue) (p : Pool deque)
      → p.active ≡ true
      → p.posted ≡ []
      → At deque i (turning b) q [] p.polled p
      → (u : Pool deque) × Alone deque oneshot address x i p
          (record (begun deque oneshot address x p) { pool = u })
        × At deque i stealing (push x q) [] p.polled u
  unfolding act go pop_local handle_remote_spawn come_back
  taken_up i b q p on no_posts v =
      let p1 = (begun deque oneshot address x p).pool in
      let q' = push x q in
      let w = worker deque i in
      let v1 : At deque i (turning b) q [] p.polled p1 = record {
        at = v.at;
        alive = v.alive;
        done = refl;
      } in
      let v1' : At deque i (turning b) q [] p.polled (record p1 { posted = [] }) = record {
        at = v.at;
        alive = v.alive;
        done = refl;
      } in
      let p2 = put deque i (w (turning b) q' []) (record p1 { posted = [] }) in
      let v2 : At deque i (turning b) q' [] p.polled p2 = put-At deque i _ v1' in
      let p3 = put deque i (w checking q' []) p2 in
      let v3 : At deque i checking q' [] p.polled p3 = put-At deque i p2 v2 in
      let p4 = put deque i (w locals q' []) p3 in
      let v4 : At deque i locals q' [] p.polled p4 = put-At deque i p3 v3 in
      let p5 = put deque i (w stealing q' []) p4 in
      let took =
        ap (λ m. handle_remote_spawn deque (turning b) (m ++ x ∷ []) i (w (turning b) q []) p1)
          no_posts in
      let checked =
        ap
          (λ b.
            some
              (put deque i (record (w checking q' []) { pc = if b then locals else leaving }) p3))
          on in
      (
        p5,
        idles deque oneshot address x i (goes false) p p4 p5 refl v4 refl refl (
            idles deque oneshot address x i (goes false) p p3 p4 refl v3 checked refl (
              idles deque oneshot address x i (returns true) p p2 p3 refl v2 refl refl (
                idles deque oneshot address x i takes p p1 p2 refl v1 took refl
                  (begins (call-begun deque oneshot address x p v.alive))))),
        put-At deque i p4 v4,
      )

  -- It steals the task, which is all that is on its queue.
  goes_in :
      (i : ℕ) (q : Queue) (p u : Pool deque)
      → contents q ≡ []
      → Alone deque oneshot address x i p (record (begun deque oneshot address x p) { pool = u })
      → At deque i stealing (push x q) [] p.polled u
      → (v : Pool deque) × (r : Queue) × Alone deque oneshot address x i p (at_poll i p v)
        × At deque i polling r [] (p.polled ++ x ∷ []) v
  unfolding act go after_steal
  goes_in i q p u none_left path v =
      let (r, found) =
        alone_stolen deque oneshot address x q (steal_weak false (push x q)) none_left refl in
      let polls = record u { polled = u.polled ++ x ∷ [] } in
      let stands = worker deque i stealing (push x q) [] in
      let entered =
        step-act deque i u (goes false) v ∙ ap (λ s. some (after_steal deque s i stands u)) found in
      (
        put deque i (worker deque i polling r []) polls,
        r,
        enters_poll path (
            enters-step deque oneshot address x
              (record (begun deque oneshot address x p) { pool = u }) i _ entered
              (ground (arith, occurrences-append x u.polled (x ∷ []))) v.alive refl refl),
        put-At deque i polls (polled-At deque i u x v),
      )

  -- A call of `run` on an active pool with an idle worker in a turn: steps of this worker alone lead to
  -- the first poll of the task, in `do_poll` of this worker. If the closure's future resolves there, then
  -- `run` returns what it resolves with, and the closure got a handle of the pool and of the worker.
  pub run_returns :
      (i : ℕ) (b : Bool) (q : Queue) (r : A) (p : Pool deque)
      → p.active ≡ true
      → p.ended ≡ false
      → p.posted ≡ []
      → contents q ≡ []
      → get_elem? p.threads i
        ≡ some (record { work_queue = q; local_work_queue = []; borrowed = false; pc = turning b })
      → (c : CallState) × Alone deque oneshot address x i p c
        × (c.stage ≡ lazy)
        × (c.polled_by ≡ some i)
        × (d : CallState) × (step deque oneshot address x (answers false (ready r)) c ≡ some d)
        × (returned deque oneshot address x d ≡ some (ok r))
        × (d.given ≡ some (handle_of i))
  unfolding act come_back
  run_returns i b q r p on live no_posts none_left at =
      let (u, path, v) =
        taken_up i b q p on no_posts (record { at = at; alive = live; done = refl }) in
      let (u', q', path', v') = goes_in i q p u none_left path v in
      let done = put deque i (worker deque i stealing q' []) u' in
      let resolving = launched i r p u' done v' refl in
      let before = Alone-Calls deque oneshot address x path' in
      (
        at_poll i p u',
        path',
        refl,
        refl,
        resolves i r p done,
        resolving,
        run_verdict deque oneshot address x p (resolves i r p done)
            (steps (answers false (ready r)) before resolving),
        refl,
      )
