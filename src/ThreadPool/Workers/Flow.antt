-- ===== src/ThreadPool/Workers/Flow.antt =====
-- src/evloop/threadpool/mod.rs: the balance of the handles over every schedule of the pool.
use complete_io.Base.{
  ℕ, ◌+◌, ◌≡◌, refl, sym, ap, ◌∙◌, inl, inr, Option, none, some, Option-cases, List, [], ◌∷◌,
  get_elem?, occurrences, occurrences-append, else_some, of_some, arith,
}
use complete_io.ThreadPool.Workers.WorkQueue.{Deque}
use complete_io.ThreadPool.Workers.{
  Event, Action, spawns, shuts_down, works, Worker, Pool, with_concurrency, act_at, happen, step,
  run, run_rest,
}
use complete_io.ThreadPool.Workers.Balance.{load, Balanced, with_concurrency-Balanced, act-Balanced}

module _ (deque : Deque) (t : ℕ) where
  act_at-Balanced :
      (o : Option (Worker deque)) (a : Action) (i : ℕ) (p u : Pool deque)
      → get_elem? p.threads i ≡ o
      → Balanced deque t p
      → act_at deque o a i p ≡ some u
      → Balanced deque t u
  act_at-Balanced none a i p u q v e = cc
  act_at-Balanced (some w) a i p u q v e = act-Balanced deque t i w p q v a u e

  happen-Balanced :
      (e : Event) (p u : Pool deque)
      → Balanced deque t p
      → happen deque e p ≡ some u
      → Balanced deque t u
  unfolding happen
  happen-Balanced (spawns x) p u v q = of_some (Balanced deque t) _ u q (
      omega
        (arith, occurrences-append t p.posted (x ∷ []), occurrences-append t p.started (x ∷ [])))
  happen-Balanced shuts_down p u v q = of_some (Balanced deque t) _ u q v
  happen-Balanced (works i a) p u v q = act_at-Balanced (get_elem? p.threads i) a i p u refl v q

  pub step-Balanced :
      (e : Event) (p u : Pool deque)
      → Balanced deque t p
      → step deque e p ≡ some u
      → Balanced deque t u
  unfolding step
  step-Balanced e p u v q = happen-Balanced e p u v (else_some p.ended _ u q).1

  pub run-Balanced :
      (es : List Event) (p u : Pool deque)
      → Balanced deque t p
      → run deque es p ≡ some u
      → Balanced deque t u
  unfolding run
  run-Balanced [] p u v q = of_some (Balanced deque t) p u q v
  run-Balanced (e ∷ es) p u v q = elim (Option-cases (step deque e p)) [
    | inl stuck ↦ cc (sym (ap (run_rest deque (run deque es)) stuck) ∙ q)
    | inr (x, moved) ↦
        run-Balanced es x u (step-Balanced e p x v moved)
          (sym (ap (run_rest deque (run deque es)) moved) ∙ q)
  ]

  -- In whatever order the threads of a new pool spawn, notify, take, poll and leave, the handles made
  -- for a task are, one for one, those in the custom event, those on the queues of the workers, those
  -- that were dropped with the queues of a worker that left, and those that do_poll was called on.
  pub handles_balanced :
      (concurrency : ℕ) (es : List Event) (p : Pool deque)
      → run deque es (with_concurrency deque concurrency) ≡ some p
      → occurrences t p.started
        ≡ occurrences t p.posted
          + ((load deque t p.threads + occurrences t p.dropped) + occurrences t p.polled)
  handles_balanced concurrency es p q =
      run-Balanced es (with_concurrency deque concurrency) p
        (with_concurrency-Balanced deque t concurrency) q
