-- ===== src/ThreadPool/Run/Idle.antt =====
-- src/evloop/threadpool/mod.rs: steps of an idle worker during a call of `run`.
use complete_io.Base.{
  ℕ, suc, Bool, true, ◌≡◌, refl, ap, ◌∙◌, false, none, some, List, [], ◌∷◌, ◌++◌, occurrences,
  occurrences-perm, if◌then◌else◌, ==_iff, arith,
}
use complete_io.ThreadPool.Workers
use complete_io.ThreadPool.Workers.{
  Pc, Action, act, go, pop_local, after_steal, handle_remote_spawn, come_back, checking, locals,
  stealing, polling, leaving, turning, takes, goes, returns, spawns_local, notifies, Pool, works,
  put, spawns,
}
use complete_io.ThreadPool.Workers.WorkQueue.{Deque, Steal, stolen, empty, inconsistent}
use complete_io.ThreadPool.Workers.Drain.{At, worker, step-act}
use complete_io.ThreadPool.Run.{
  Oneshot, spawned, lazy, elsewhere, enters, Call, call, returns_of, uses, apart, entered, happen,
  step, Calls, steps,
}

module _ {A : Type 0} (deque : Deque) (oneshot : Oneshot A) (address x : ℕ) where
  open deque use {
    Queue, contents, push, contents-push, steal_weak, steal_weak_stolen, steal_weak_empty,
    steal_weak_calm,
  }

  abbrev CallState : Type 0
  CallState = Call deque oneshot address x

  apart-step :
      (c : CallState) (e : Workers.Event) (p : Pool deque)
      → Workers.step deque e c.pool ≡ some p
      → uses deque oneshot address x p ≡ uses deque oneshot address x c.pool
      → c.pool.ended ≡ false
      → returns_of deque oneshot address x c.polled_by e ≡ false
      → step deque oneshot address x (elsewhere e) c ≡ some (record c { pool = p })
  unfolding step happen
  apart-step c e p moved same live other =
      ap (λ b. if b then none else happen deque oneshot address x (elsewhere e) c) live
      ∙ ap (λ b. if b then none else apart deque oneshot address x c (Workers.step deque e c.pool))
          other
      ∙ ap (apart deque oneshot address x c) moved
      ∙ ap (λ b. if b then some (record c { pool = p }) else none)
          ((==_iff (uses deque oneshot address x p) (uses deque oneshot address x c.pool)).1 same)

  pub enters-step :
      (c : CallState) (i : ℕ) (p : Pool deque)
      → Workers.step deque (works i (goes false)) c.pool ≡ some p
      → occurrences x p.polled ≡ suc (occurrences x c.pool.polled)
      → c.pool.ended ≡ false
      → c.polled_by ≡ none
      → c.suspended ≡ false
      → step deque oneshot address x (enters i false) c
        ≡ some (record c { pool = p; polled_by = some i })
  unfolding step happen
  enters-step c i p moved more live free held =
      ap (λ b. if b then none else happen deque oneshot address x (enters i false) c) live
      ∙ ap
          (λ o.
            entered deque oneshot address x o c.suspended i c
              (Workers.step deque (works i (goes false)) c.pool))
          free
      ∙ ap
          (λ b.
            entered deque oneshot address x none b i c
              (Workers.step deque (works i (goes false)) c.pool))
          held
      ∙ ap (entered deque oneshot address x none false i c) moved
      ∙ ap (λ b. if b then some (record c { pool = p; polled_by = some i }) else none)
          ((==_iff (occurrences x p.polled) (suc (occurrences x c.pool.polled))).1 more)

  -- The task is all that the worker can steal.
  pub alone_stolen :
      (q : Queue) (s : Steal Queue)
      → contents q ≡ []
      → steal_weak false (push x q) ≡ s
      → (r : Queue) × (steal_weak false (push x q) ≡ stolen x r)
  alone_stolen q inconsistent none_left e = absurd (steal_weak_calm (push x q) e)
  alone_stolen q empty none_left e =
      let n = occurrences-perm x (contents-push x q) in
      let m = ap (occurrences x) (steal_weak_empty false (push x q) e) in
      absurd (ground (arith, n, m))
  alone_stolen q (stolen y r) none_left e =
      let n = occurrences-perm y (contents-push x q) in
      let m = occurrences-perm y (steal_weak_stolen false (push x q) r y e) in
      let z = ap (occurrences y) none_left in
      let same : y ≡ x = ground (arith, n, m, z) in (r, e ∙ ap (λ y. stolen y r) same)

  -- A new call of `run` on a pool whose worker `i` is in a turn.
  abbrev pub begun : Pool deque → CallState
  begun p = record {
    pool = record p { posted = p.posted ++ x ∷ []; started = p.started ++ x ∷ [] };
    polled_by = none;
    stage = lazy;
    suspended = false;
    lost = false;
    wakers = 0;
    rx = oneshot.channel;
    given = none;
    resolved = none;
    panicked = false;
  }

  pub call-begun :
      (p : Pool deque) → p.ended ≡ false → call deque oneshot address x p ≡ some (begun p)
  unfolding call Workers.step
  call-begun p live =
      ap
        (λ b.
          spawned deque oneshot address x (if b then none else Workers.happen deque (spawns x) p))
        live

  -- What a worker does for itself: it goes on, takes from the custom event, and comes back.
  abbrev pub quiet : Action → Bool
  quiet (goes busy) = true
  quiet takes = true
  quiet (returns fine) = fine
  quiet (spawns_local y) = false
  quiet (notifies y) = false

  -- A call of `run` on the pool `p` begins, and then the worker `i` alone takes steps, up to the
  -- `do_poll` of the task. No other thread does anything, and the future is not polled.
  pub data Alone (i : ℕ) (p : Pool deque) : CallState → Type 0 where
    begins : {c : CallState} → call deque oneshot address x p ≡ some c → Alone i p c
    works_on :
        {c d : CallState} (a : Action)
        → quiet a ≡ true
        → Alone i p c
        → step deque oneshot address x (elsewhere (works i a)) c ≡ some d
        → Alone i p d
    enters_poll :
        {c d : CallState}
        → Alone i p c
        → step deque oneshot address x (enters i false) c ≡ some d
        → Alone i p d

  pub Alone-Calls :
      {i : ℕ} {p : Pool deque} {c : CallState} → Alone i p c → Calls deque oneshot address x p c
  Alone-Calls (begins q) = Calls.begins q
  Alone-Calls {i} (works_on a h before q) = steps (elsewhere (works i a)) (Alone-Calls before) q
  Alone-Calls {i} (enters_poll before q) = steps (enters i false) (Alone-Calls before) q

  -- A step of an idle worker that moves no handle of the task to a poll.
  pub idles :
      {c : Pc} {q : Queue} {l ps : List ℕ} (i : ℕ) (a : Action) (p0 p u : Pool deque)
      → quiet a ≡ true
      → At deque i c q l ps p
      → act deque a i (worker deque i c q l) p ≡ some u
      → uses deque oneshot address x u ≡ uses deque oneshot address x p
      → Alone i p0 (record (begun p0) { pool = p })
      → Alone i p0 (record (begun p0) { pool = u })
  idles i a p0 p u h v moved same path = works_on a h path (
      apart-step (record (begun p0) { pool = p }) (works i a) u (step-act deque i p a v ∙ moved)
        same v.alive refl)
