-- ===== src/ThreadPool/Run/Invariant.antt =====
-- src/evloop/threadpool/mod.rs: what holds in each state of a call of `run`, and that the polls of its
-- future keep it.
use complete_io.Base.{
  ℕ, ◌≡◌, ◌≢◌, refl, sym, ◌∙◌, subst, ◌&&◌, ◌||◌, Bool, true, false, Option, none, some,
  if◌then◌else◌, ◌==◌, Result, ok, err, panic, of_some, arith,
}
use complete_io.ThreadPool.Handles.{LocalHandle}
use complete_io.ThreadPool.Workers
use complete_io.ThreadPool.Workers.{
  Pc, checking, locals, polling_local, stealing, polling, turning, leaving, exited, Pool, Worker,
  works, goes, returns, notifies, spawns,
}
use complete_io.ThreadPool.Workers.WorkQueue.{Deque}
use complete_io.ThreadPool.Run.{
  Oneshot, Stage, lazy, driving, unwinding, gone, Answer, ready, not_ready, panics, Call, unwound,
  in_pool, suspend, resume, launch, poll, poll_by,
}

module _ {A : Type 0} (deque : Deque) (oneshot : Oneshot A) (address x : ℕ) where
  open oneshot use {
    Channel, channel, send, drop_sender, received, received-channel, received-send,
    received-drop_sender,
  }

  abbrev CallState : Type 0
  CallState = Call deque oneshot address x

  -- What `run` ought to come back with: the result of the future, or a panic once the future can no
  -- longer be polled.
  abbrev pub verdict : Option A → Bool → ℕ → Option (Option A)
  verdict (some r) stopped wakers = some (some r)
  verdict none stopped wakers = if stopped && (wakers == 0) then some none else none

  abbrev pub Facts : Stage → CallState → Type 0
  Facts lazy c = (c.resolved ≡ none) × (c.panicked ≡ false) × (c.suspended ≡ false)
  Facts driving c =
      (c.resolved ≡ none) × (c.panicked ≡ false) × (c.suspended ≡ true → (c.wakers == 0) ≡ false)
  Facts unwinding c = (c.resolved ≡ none) × (c.panicked ≡ true) × (c.suspended ≡ false)
  Facts gone c =
      (c.suspended ≡ true → c.wakers ≡ 0)
      × (c.resolved ≡ none → c.suspended ≡ false → c.pool.ended ≡ true)

  pub record Inv (c : CallState) : Type 0 where
    pub heard : received c.rx ≡ verdict c.resolved (c.panicked || c.suspended) c.wakers
    pub busy : c.polled_by ≢ none → c.suspended ≡ false
    pub facts : Facts c.stage c

  pub at_stage : (s : Stage) (c : CallState) → c.stage ≡ s → Facts s c → Facts c.stage c
  at_stage s c e f = subst (λ s. Facts s c) (sym e) f

  pub known_at : (s : Stage) (c : CallState) → Inv c → c.stage ≡ s → Facts s c
  known_at s c v e = subst (λ s. Facts s c) e v.facts

  pub in_pool-Inv :
      (f : Pool deque → CallState) (o : Option (Pool deque)) (d : CallState)
      → ((p : Pool deque) → o ≡ some p → Inv (f p))
      → in_pool deque oneshot address x f o ≡ some d
      → Inv d
  in_pool-Inv f none d v q = cc
  in_pool-Inv f (some p) d v q = of_some Inv (f p) d q (v p refl)

  pub if-Inv :
      (b : Bool) {u v : CallState}
      → (b ≡ true → Inv u)
      → (b ≡ false → Inv v)
      → Inv (if b then u else v)
  if-Inv true on off = on refl
  if-Inv false on off = off refl

  -- The future can be polled, and a handle of the task is there.
  pub record Running (c : CallState) : Type 0 where
    pub open_ : received c.rx ≡ none
    pub unresolved : c.resolved ≡ none
    pub calm : c.panicked ≡ false
    pub held : c.suspended ≡ false

  ready-Inv :
      (r : A) (c : CallState) (p : Pool deque)
      → Running c
      → Inv (record c {
        pool = p;
        polled_by = none;
        stage = gone;
        rx = send r c.rx;
        resolved = some r;
      })
  ready-Inv r c p v = record {
    heard = received-send r c.rx v.open_;
    busy = λ n. absurd (n refl);
    facts = (λ e. cc (v.held), λ e. cc);
  }

  again-Inv : (c : CallState) → Running c → Inv (record c { stage = driving })
  again-Inv c v = record {
    heard = v.open_ ∙ rw (v.unresolved, v.calm, v.held) refl;
    busy = λ n. v.held;
    facts = (v.unresolved, v.calm, λ e. cc (v.held));
  }

  pub suspended-Inv :
      (c : CallState) (p : Pool deque) (b : Bool)
      → Running c
      → Inv (
          suspend deque oneshot address x
            (record c { pool = p; polled_by = none; stage = driving; lost = b }))
  suspended-Inv c p b v =
      if-Inv (c.wakers == 0)
        (λ last. record {
          heard = received-drop_sender c.rx v.open_ ∙ rw (v.unresolved, v.calm, last) refl;
          busy = λ n. absurd (n refl);
          facts = (λ e. ground arith, λ e q. cc);
        })
        (λ more. record {
          heard = v.open_ ∙ rw (v.unresolved, v.calm, more) refl;
          busy = λ n. absurd (n refl);
          facts = (v.unresolved, v.calm, λ e. more);
        })

  pub unwound-Inv :
      (c : CallState)
      → received c.rx ≡ none
      → c.stage ≡ unwinding
      → c.resolved ≡ none
      → c.panicked ≡ true
      → c.suspended ≡ false
      → Inv (unwound deque oneshot address x c)
  unwound-Inv c o e r f t =
      if-Inv (c.wakers == 0)
        (λ last. record {
          heard = received-drop_sender c.rx o ∙ rw (r, f, last) refl;
          busy = λ n. t;
          facts = at_stage unwinding _ e (r, f, t);
        })
        (λ more. record {
          heard = o ∙ rw (r, f, more) refl;
          busy = λ n. t;
          facts = at_stage unwinding c e (r, f, t);
        })

  resume-Inv :
      (i : ℕ) (again : Bool) (a : Answer A) (c d : CallState)
      → Running c
      → resume deque oneshot address x i again a c ≡ some d
      → Inv d
  unfolding resume
  resume-Inv i again (ready r) c d v q =
      in_pool-Inv _ (Workers.step deque (works i (returns true)) c.pool) d
        (λ p moved. ready-Inv r c p v) q
  resume-Inv i true not_ready c d v q = of_some Inv _ d q (again-Inv c v)
  resume-Inv i false not_ready c d v q =
      in_pool-Inv _ (Workers.step deque (works i (returns true)) c.pool) d
        (λ p moved. suspended-Inv c p c.lost v) q
  resume-Inv i again panics c d v q =
      of_some Inv _ d q (unwound-Inv _ v.open_ refl v.unresolved refl v.held)

  given-Running :
      (c : CallState) (h : LocalHandle) → Running c → Running (record c { given = some h })
  given-Running c h v = record {
    open_ = v.open_;
    unresolved = v.unresolved;
    calm = v.calm;
    held = v.held;
  }

  launch-Inv :
      (r : Result LocalHandle) (i : ℕ) (again : Bool) (a : Answer A) (c d : CallState)
      → Running c
      → launch deque oneshot address x r i again a c ≡ some d
      → Inv d
  launch-Inv (ok h) i again a c d v q = resume-Inv i again a _ d (given-Running c h v) q
  launch-Inv (err e) i again a c d v q = cc
  launch-Inv panic i again a c d v q =
      of_some Inv _ d q (unwound-Inv _ v.open_ refl v.unresolved refl v.held)

  poll-Inv :
      (s : Stage) (i : ℕ) (again : Bool) (a : Answer A) (c d : CallState)
      → Inv c
      → c.stage ≡ s
      → c.suspended ≡ false
      → poll deque oneshot address x s i again a c ≡ some d
      → Inv d
  unfolding poll
  poll-Inv lazy i again a c d v e t q =
      let f = known_at lazy c v e in
      launch-Inv _ i again a c d
        (record { open_ = v.heard ∙ rw (f.0, f.1, t) refl; unresolved = f.0; calm = f.1; held = t })
        q
  poll-Inv driving i again a c d v e t q =
      let f = known_at driving c v e in
      resume-Inv i again a c d
        (record { open_ = v.heard ∙ rw (f.0, f.1, t) refl; unresolved = f.0; calm = f.1; held = t })
        q
  poll-Inv unwinding i again a c d v e t q = cc
  poll-Inv gone i again a c d v e t q = cc

  pub poll_by-Inv :
      (o : Option ℕ) (again : Bool) (a : Answer A) (c d : CallState)
      → Inv c
      → c.polled_by ≡ o
      → poll_by deque oneshot address x o again a c ≡ some d
      → Inv d
  poll_by-Inv none again a c d v e q = cc
  poll_by-Inv (some i) again a c d v e q =
      poll-Inv c.stage i again a c d v refl (v.busy (λ n. cc (sym e ∙ n))) q
