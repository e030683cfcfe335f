-- ===== src/ThreadPool/Run/Wakers.antt =====
-- src/evloop/threadpool/mod.rs: the wakers of the task of a call of `run`, as they come and go, keep
-- what holds in each state.
use complete_io.Base.{
  ℕ, zero, suc, ◌≡◌, ◌≢◌, refl, sym, ◌∙◌, Bool, true, false, Option, none, some, ◌==◌, of_some,
  arith, Option-cases, inl, inr,
}
use complete_io.ThreadPool.Workers
use complete_io.ThreadPool.Workers.{
  Pc, checking, locals, polling_local, stealing, polling, turning, leaving, exited, Pool, Worker,
  works, goes, returns, notifies, spawns,
}
use complete_io.ThreadPool.Workers.WorkQueue.{Deque}
use complete_io.ThreadPool.Run.{
  Oneshot, Stage, lazy, driving, unwinding, gone, Call, released, keep, wake, forgotten, forget,
}
use complete_io.ThreadPool.Run.Invariant.{Inv, at_stage, known_at, in_pool-Inv, if-Inv, unwound-Inv}

module _ {A : Type 0} (deque : Deque) (oneshot : Oneshot A) (address x : ℕ) where
  open oneshot use {
    Channel, channel, send, drop_sender, received, received-channel, received-send,
    received-drop_sender,
  }

  abbrev CallState : Type 0
  CallState = Call deque oneshot address x

  pub keep-Inv :
      (o : Option ℕ) (s : Stage) (c d : CallState)
      → Inv deque oneshot address x c
      → c.polled_by ≡ o
      → c.stage ≡ s
      → keep deque oneshot address x o s c ≡ some d
      → Inv deque oneshot address x d
  keep-Inv none s c d v b e q = cc
  keep-Inv (some i) lazy c d v b e q =
      let f = known_at deque oneshot address x lazy c v e in
      of_some (Inv deque oneshot address x) _ d q (record {
        heard = v.heard ∙ rw (f.0, f.1, f.2) refl;
        busy = v.busy;
        facts = at_stage deque oneshot address x lazy _ e (f.0, f.1, f.2);
      })
  keep-Inv (some i) driving c d v b e q =
      let f = known_at deque oneshot address x driving c v e in
      let t = v.busy (λ n. cc (sym b ∙ n)) in
      of_some (Inv deque oneshot address x) _ d q (record {
        heard = v.heard ∙ rw (f.0, f.1, t) refl;
        busy = v.busy;
        facts = at_stage deque oneshot address x driving _ e (f.0, f.1, λ r. cc (sym t ∙ r));
      })
  keep-Inv (some i) unwinding c d v b e q = cc
  keep-Inv (some i) gone c d v b e q = cc

  pub wake-Inv :
      (i : ℕ) (h b : Bool) (n : ℕ) (s : Stage) (c d : CallState)
      → Inv deque oneshot address x c
      → c.suspended ≡ h
      → c.wakers ≡ n
      → c.stage ≡ s
      → wake deque oneshot address x i h b n c ≡ some d
      → Inv deque oneshot address x d
  wake-Inv i true false (suc n) driving c d v t k e q =
      let f = known_at deque oneshot address x driving c v e in
      in_pool-Inv deque oneshot address x _ (Workers.step deque (works i (notifies x)) c.pool) d
        (λ p moved. record {
          heard = v.heard ∙ rw (f.0, f.1, t, f.2 t) refl;
          busy = λ m. refl;
          facts = at_stage deque oneshot address x driving _ e (f.0, f.1, λ r. cc r);
        })
        q
  wake-Inv i true false (suc n) lazy c d v t k e q =
      let f = known_at deque oneshot address x lazy c v e in cc (sym t ∙ f.2)
  wake-Inv i true false (suc n) unwinding c d v t k e q =
      let f = known_at deque oneshot address x unwinding c v e in cc (sym t ∙ f.2)
  wake-Inv i true false (suc n) gone c d v t k e q =
      let f = known_at deque oneshot address x gone c v e in
      let z = f.0 t in absurd (omega (arith, k, z))
  wake-Inv i true false zero s c d v t k e q = cc
  wake-Inv i true true n s c d v t k e q = cc
  wake-Inv i false b n s c d v t k e q = cc

  released-Inv :
      (c : CallState)
      → received c.rx ≡ none
      → c.stage ≡ driving
      → c.resolved ≡ none
      → c.panicked ≡ false
      → c.suspended ≡ true
      → (c.polled_by ≢ none → c.suspended ≡ false)
      → Inv deque oneshot address x (released deque oneshot address x c)
  released-Inv c o e r f t b =
      if-Inv deque oneshot address x (c.wakers == 0)
        (λ last. record {
          heard = received-drop_sender c.rx o ∙ rw (r, f, t, last) refl;
          busy = b;
          facts = (λ e. ground arith, λ e q. cc);
        })
        (λ more. record {
          heard = o ∙ rw (r, f, t, more) refl;
          busy = b;
          facts = at_stage deque oneshot address x driving c e (r, f, λ e. more);
        })

  forgotten-Inv :
      (h : Bool) (s : Stage) (n : ℕ) (c : CallState)
      → Inv deque oneshot address x c
      → c.pool.ended ≡ false
      → c.suspended ≡ h
      → c.stage ≡ s
      → c.wakers ≡ suc n
      → Inv deque oneshot address x
          (forgotten deque oneshot address x h s (record c { wakers = n }))
  forgotten-Inv true driving n c v live t e k =
      let f = known_at deque oneshot address x driving c v e in
      released-Inv _ (v.heard ∙ rw (f.0, f.1, t, f.2 t) refl) e f.0 f.1 t v.busy
  forgotten-Inv true lazy n c v live t e k =
      cc (sym t ∙ (known_at deque oneshot address x lazy c v e).2)
  forgotten-Inv true unwinding n c v live t e k =
      cc (sym t ∙ (known_at deque oneshot address x unwinding c v e).2)
  forgotten-Inv true gone n c v live t e k =
      absurd (omega (arith, k, (known_at deque oneshot address x gone c v e).0 t))
  forgotten-Inv false unwinding n c v live t e k =
      let f = known_at deque oneshot address x unwinding c v e in
      let more : (suc n == 0) ≡ false = ground arith in
      unwound-Inv deque oneshot address x _ (v.heard ∙ rw (f.0, f.1, k, more) refl) e f.0 f.1 t
  forgotten-Inv false lazy n c v live t e k =
      let f = known_at deque oneshot address x lazy c v e in
      record {
        heard = v.heard ∙ rw (f.0, f.1, t) refl;
        busy = v.busy;
        facts = at_stage deque oneshot address x lazy _ e (f.0, f.1, f.2);
      }
  forgotten-Inv false driving n c v live t e k =
      let f = known_at deque oneshot address x driving c v e in
      record {
        heard = v.heard ∙ rw (f.0, f.1, t) refl;
        busy = v.busy;
        facts = at_stage deque oneshot address x driving _ e (f.0, f.1, λ r. cc (sym t ∙ r));
      }
  forgotten-Inv false gone n c v live t e k =
      let f = known_at deque oneshot address x gone c v e in
      elim (Option-cases c.resolved) [
        | inl r ↦ cc (sym live ∙ f.1 r t)
        | inr (y, r) ↦ record {
          heard = v.heard ∙ rw r refl;
          busy = v.busy;
          facts = at_stage deque oneshot address x gone _ e (λ u. cc (sym t ∙ u), λ r u. f.1 r u);
        }
      ]

  pub forget-Inv :
      (n : ℕ) (c d : CallState)
      → Inv deque oneshot address x c
      → c.pool.ended ≡ false
      → c.wakers ≡ n
      → forget deque oneshot address x n c ≡ some d
      → Inv deque oneshot address x d
  forget-Inv zero c d v live k q = cc
  forget-Inv (suc n) c d v live k q =
      of_some (Inv deque oneshot address x) _ d q
        (forgotten-Inv c.suspended c.stage n c v live refl refl k)
