-- ===== src/ThreadPool/Workers/LocalTasks.antt =====
-- src/evloop/threadpool/mod.rs: what comes of a task that spawns a local task.
use complete_io.Base.{
  ℕ, ◌≡◌, refl, sym, ap, ◌∙◌, none, if◌then◌else◌, Bool-cases, inl, inr, true, false, some, List,
  [], ◌∷◌, ◌++◌, get_elem?, length, length-perm, arith,
}
use complete_io.ThreadPool.Workers.WorkQueue.{Deque, Steal, stolen, empty, inconsistent}
use complete_io.ThreadPool.Workers.{
  happen, act_at, crash, push_front, stealing, polling, turning, goes, spawns_local, returns, Event,
  works, Worker, Pool, put, after_steal, go, spawn_local, come_back, act, step, run, run_rest,
}
use complete_io.ThreadPool.Workers.Drain.{At, worker, step-act, put-At}
use complete_io.ThreadPool.Workers.Waiting.{KeepsTurning, Waits, run-Waits}

module _ (deque : Deque) (i : ℕ) where
  open deque use {Queue, contents, steal_weak, steal_weak_stolen}

  calm_empty : (q : Queue) (s : Steal Queue) → contents q ≡ [] → steal_weak false q ≡ s → s ≡ empty
  calm_empty q empty n e = refl
  calm_empty q inconsistent n e = absurd (deque.steal_weak_calm q e)
  calm_empty q (stolen x r) n e =
      absurd (omega (arith, length-perm (steal_weak_stolen false q r x e), ap length n))

  after_step :
      (e : Event) (es : List Event) (p q u : Pool deque)
      → step deque e p ≡ some q
      → run deque (e ∷ es) p ≡ some u
      → run deque es q ≡ some u
  unfolding run
  after_step e es p q u s r = sym (ap (run_rest deque (run deque es)) s) ∙ r

  pushed_left_waiting :
      (p u : Pool deque) (w : Worker deque) (x : ℕ) (es : List Event)
      → p.ended ≡ false
      → get_elem? p.threads i ≡ some w
      → w.pc ≡ polling
      → w.borrowed ≡ false
      → contents w.work_queue ≡ []
      → KeepsTurning i es
      → run deque (works i (spawns_local x) ∷ works i (returns true) ∷ works i (goes false) ∷ es) p
        ≡ some u
      → (w' : Worker deque) × (get_elem? u.threads i ≡ some w')
        × (w'.pc ≡ turning false)
        × (more : List ℕ) × (w'.local_work_queue ≡ more ++ x ∷ w.local_work_queue)
  unfolding act go spawn_local come_back after_steal
  pushed_left_waiting p u w x es live at busy free none_left k r =
      let q = w.work_queue in
      let l = w.local_work_queue in
      let here : get_elem? p.threads i ≡ some (worker deque i polling q l) =
        at
        ∙ ap (λ c. some (record w { pc = c })) busy
        ∙ ap (λ b. some (record w { borrowed = b; pc = polling })) free in
      let v : At deque i polling q l p.polled p = record { at = here; alive = live; done = refl } in
      let p0 = record p { started = p.started ++ x ∷ [] } in
      let v0 : At deque i polling q l p.polled p0 = record {
        at = here;
        alive = live;
        done = refl;
      } in
      let p1 = put deque i (worker deque i polling q (x ∷ l)) p0 in
      let v1 : At deque i polling q (x ∷ l) p.polled p1 = put-At deque i p0 v0 in
      let p2 = put deque i (worker deque i stealing q (x ∷ l)) p1 in
      let v2 : At deque i stealing q (x ∷ l) p.polled p2 = put-At deque i p1 v1 in
      let p3 = put deque i (worker deque i (turning false) q (x ∷ l)) p2 in
      let v3 : At deque i (turning false) q (x ∷ l) p.polled p3 = put-At deque i p2 v2 in
      let s3 : step deque (works i (goes false)) p2 ≡ some p3 =
        step-act deque i p2 (goes false) v2
        ∙ ap (λ s. some (after_steal deque s i (worker deque i stealing q (x ∷ l)) p2))
            (calm_empty q (steal_weak false q) none_left refl) in
      let r1 =
        after_step (works i (spawns_local x)) _ p p1 u (step-act deque i p (spawns_local x) v) r in
      let r2 =
        after_step (works i (returns true)) _ p1 p2 u (step-act deque i p1 (returns true) v1) r1 in
      let r3 = after_step (works i (goes false)) es p2 p3 u s3 r2 in
      let end : Waits deque i (x ∷ l) u =
        run-Waits deque i (x ∷ l) es p3 u k
          (record {
            self = worker deque i (turning false) q (x ∷ l);
            at = v3.at;
            turns = refl;
            more = [];
            queue = refl;
          })
          r3 in
      (end.self, end.at, end.turns, end.more, end.queue)

  -- In the process that a panic has ended nothing follows.
  crash_is_last :
      (p u : Pool deque) (w : Worker deque) (x : ℕ) (e : Event) (es : List Event)
      → p.ended ≡ false
      → get_elem? p.threads i ≡ some w
      → w.pc ≡ polling
      → w.borrowed ≡ true
      → run deque (works i (spawns_local x) ∷ e ∷ es) p ≡ some u
      → ⊥
  unfolding step happen act spawn_local run
  crash_is_last p u w x e es live at busy taken r =
      let crashed : step deque (works i (spawns_local x)) p ≡ some (crash deque p) =
        ap (λ b. if b then none else happen deque (works i (spawns_local x)) p) live
        ∙ ap (λ o. act_at deque o (spawns_local x) i p) at
        ∙ ap (λ c. spawn_local deque x c i w p) busy
        ∙ ap (λ b. some (if b then crash deque p else push_front deque x i w p)) taken in
      cc (after_step (works i (spawns_local x)) (e ∷ es) p (crash deque p) u crashed r)

  -- When a global task spawns a local task and nothing else is on the queues of its worker, the
  -- worker goes from its poll into a turn without a timeout, and whatever else happens until that
  -- turn returns, the local task stays on the queue.
  pub local_task_left_waiting :
      (p u : Pool deque) (w : Worker deque) (x : ℕ) (es : List Event)
      → p.ended ≡ false
      → get_elem? p.threads i ≡ some w
      → w.pc ≡ polling
      → contents w.work_queue ≡ []
      → KeepsTurning i es
      → run deque (works i (spawns_local x) ∷ works i (returns true) ∷ works i (goes false) ∷ es) p
        ≡ some u
      → (w' : Worker deque) × (get_elem? u.threads i ≡ some w')
        × (w'.pc ≡ turning false)
        × (more : List ℕ) × (w'.local_work_queue ≡ more ++ x ∷ w.local_work_queue)
  local_task_left_waiting p u w x es live at busy none_left k r = elim (Bool-cases w.borrowed) [
    | inl taken ↦ absurd (
        crash_is_last p u w x (works i (returns true)) (works i (goes false) ∷ es) live at busy
          taken r)
    | inr free ↦ pushed_left_waiting p u w x es live at busy free none_left k r
  ]
