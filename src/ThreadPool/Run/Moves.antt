-- ===== src/ThreadPool/Run/Moves.antt =====
-- src/evloop/threadpool/mod.rs: the steps of a call of `run` in which its future is not polled keep
-- what holds in each state.
use complete_io.Base.{
  ℕ, suc, ◌≡◌, ◌≢◌, refl, sym, ◌∙◌, Bool, true, false, Option, none, some, get_elem?, occurrences,
  ◌==◌, of_some, then_some, else_some,
}
use complete_io.ThreadPool.Workers
use complete_io.ThreadPool.Workers.{
  Pc, checking, locals, polling_local, stealing, polling, turning, leaving, exited, Pool, Worker,
  works, goes, returns, notifies, spawns,
}
use complete_io.ThreadPool.Workers.WorkQueue.{Deque}
use complete_io.ThreadPool.Run.{
  Oneshot, Stage, lazy, driving, unwinding, gone, Call, uses, apart, entered, unwind, discarded,
  discard,
}
use complete_io.ThreadPool.Run.Invariant.{Facts, Inv, known_at, in_pool-Inv, Running, suspended-Inv}

module _ {A : Type 0} (deque : Deque) (oneshot : Oneshot A) (address x : ℕ) where
  open oneshot use {
    Channel, channel, send, drop_sender, received, received-channel, received-send,
    received-drop_sender,
  }

  abbrev CallState : Type 0
  CallState = Call deque oneshot address x

  pool-Facts :
      (s : Stage) (c : CallState) (p : Pool deque) (o : Option ℕ)
      → Facts deque oneshot address x s c
      → c.pool.ended ≡ false
      → Facts deque oneshot address x s (record c { pool = p; polled_by = o })
  pool-Facts lazy c p o f live = f
  pool-Facts driving c p o f live = f
  pool-Facts unwinding c p o f live = f
  pool-Facts gone c p o f live = (f.0, λ r t. cc (sym live ∙ f.1 r t))

  -- A step of the pool alone.
  pool-Inv :
      (c : CallState) (p : Pool deque) (o : Option ℕ)
      → Inv deque oneshot address x c
      → c.pool.ended ≡ false
      → (o ≢ none → c.suspended ≡ false)
      → Inv deque oneshot address x (record c { pool = p; polled_by = o })
  pool-Inv c p o v live b = record {
    heard = v.heard;
    busy = b;
    facts = pool-Facts c.stage c p o v.facts live;
  }

  pub apart-Inv :
      (o : Option (Pool deque)) (c d : CallState)
      → Inv deque oneshot address x c
      → c.pool.ended ≡ false
      → apart deque oneshot address x c o ≡ some d
      → Inv deque oneshot address x d
  apart-Inv none c d v live q = cc
  apart-Inv (some p) c d v live q =
      of_some (Inv deque oneshot address x) _ d
        (then_some (uses deque oneshot address x p == uses deque oneshot address x c.pool) _ d q).1
        (pool-Inv c p c.polled_by v live v.busy)

  pub entered-Inv :
      (b : Option ℕ) (h : Bool) (i : ℕ) (o : Option (Pool deque)) (c d : CallState)
      → Inv deque oneshot address x c
      → c.pool.ended ≡ false
      → c.suspended ≡ h
      → entered deque oneshot address x b h i c o ≡ some d
      → Inv deque oneshot address x d
  entered-Inv none false i (some p) c d v live t q =
      of_some (Inv deque oneshot address x) _ d
        (then_some (occurrences x p.polled == suc (occurrences x c.pool.polled)) _ d q).1
        (pool-Inv c p (some i) v live (λ n. t))
  entered-Inv none false i none c d v live t q = cc
  entered-Inv none true i o c d v live t q = cc
  entered-Inv (some j) h i o c d v live t q = cc

  discarded-Inv :
      (o : Option (Pool deque)) (c d : CallState)
      → Running deque oneshot address x c
      → discarded deque oneshot address x o c ≡ some d
      → Inv deque oneshot address x d
  discarded-Inv none c d v q = cc
  discarded-Inv (some p) c d v q =
      of_some (Inv deque oneshot address x) _ d
        (then_some (occurrences x p.dropped == suc (occurrences x c.pool.dropped)) _ d q).1
        (suspended-Inv deque oneshot address x c p true v)

  pub discard-Inv :
      (b : Option ℕ) (h : Bool) (s : Stage) (o : Option (Pool deque)) (c d : CallState)
      → Inv deque oneshot address x c
      → c.suspended ≡ h
      → c.stage ≡ s
      → discard deque oneshot address x b h s o c ≡ some d
      → Inv deque oneshot address x d
  discard-Inv none false lazy o c d v t e q =
      let f = known_at deque oneshot address x lazy c v e in
      discarded-Inv o c d
        (record { open_ = v.heard ∙ rw (f.0, f.1, t) refl; unresolved = f.0; calm = f.1; held = t })
        q
  discard-Inv none false driving o c d v t e q =
      let f = known_at deque oneshot address x driving c v e in
      discarded-Inv o c d
        (record { open_ = v.heard ∙ rw (f.0, f.1, t) refl; unresolved = f.0; calm = f.1; held = t })
        q
  discard-Inv none false unwinding o c d v t e q = cc
  discard-Inv none false gone o c d v t e q = cc
  discard-Inv none true s o c d v t e q = cc
  discard-Inv (some j) h s o c d v t e q = cc

  come_back-ended :
      (pc : Pc) (i : ℕ) (w : Worker deque) (p u : Pool deque)
      → Workers.come_back deque pc false i w p ≡ some u
      → u.ended ≡ true
  unfolding Workers.come_back
  come_back-ended polling_local i w p u q = of_some (λ u. u.ended ≡ true) _ u q refl
  come_back-ended polling i w p u q = of_some (λ u. u.ended ≡ true) _ u q refl
  come_back-ended (turning b) i w p u q = of_some (λ u. u.ended ≡ true) _ u q refl
  come_back-ended checking i w p u q = cc
  come_back-ended locals i w p u q = cc
  come_back-ended stealing i w p u q = cc
  come_back-ended leaving i w p u q = cc
  come_back-ended exited i w p u q = cc

  acted-ended :
      (i : ℕ) (p u : Pool deque) (o : Option (Worker deque))
      → Workers.act_at deque o (returns false) i p ≡ some u
      → u.ended ≡ true
  unfolding Workers.act
  acted-ended i p u none q = cc
  acted-ended i p u (some w) q = come_back-ended w.pc i w p u q

  returns_false-ended :
      (i : ℕ) (p u : Pool deque)
      → Workers.step deque (works i (returns false)) p ≡ some u
      → u.ended ≡ true
  unfolding Workers.step
  returns_false-ended i p u q =
      acted-ended i p u (get_elem? p.threads i) (else_some p.ended _ u q).1

  pub unwind-Inv :
      (o : Option ℕ) (s : Stage) (c d : CallState)
      → Inv deque oneshot address x c
      → c.stage ≡ s
      → unwind deque oneshot address x o s c ≡ some d
      → Inv deque oneshot address x d
  unwind-Inv (some i) unwinding c d v e q =
      let f = known_at deque oneshot address x unwinding c v e in
      in_pool-Inv deque oneshot address x _ (Workers.step deque (works i (returns false)) c.pool) d
        (λ p moved. record {
          heard = v.heard;
          busy = λ n. absurd (n refl);
          facts = (λ t. cc (f.2), λ r t. returns_false-ended i c.pool p moved);
        })
        q
  unwind-Inv (some i) lazy c d v e q = cc
  unwind-Inv (some i) driving c d v e q = cc
  unwind-Inv (some i) gone c d v e q = cc
  unwind-Inv none s c d v e q = cc
