-- ===== src/ThreadPool/Workers/Balance.antt =====
-- src/evloop/threadpool/mod.rs: no handle of a task is lost or made twice on its way from a spawn or a
-- notification, over the queues, to `do_poll`.
use complete_io.Base.{
  ℕ, zero, suc, ◌+◌, ◌≡◌, refl, sym, subst, ap, Bool, true, false, Option, none, some, List, [],
  ◌∷◌, ◌++◌, get_elem?, occurrences, occurrences-append, occurrences-perm, arith, of_some,
  if◌then◌else◌, Bool-cases, inl, inr,
}
use complete_io.ThreadPool.Workers.WorkQueue.{Deque, Steal, stolen, empty, inconsistent}
use complete_io.ThreadPool.Workers.{
  Pc, checking, locals, polling_local, stealing, polling, turning, leaving, exited, Action, goes,
  spawns_local, notifies, takes, returns, position, replicate, set, Worker, Pool, fresh,
  with_concurrency, put, pop_local, after_steal, leave, crash, go, push_front, push_local,
  push_work, spawn_local, notify, handle_remote_spawn, come_back, act,
}

module _ (deque : Deque) (t : ℕ) where
  open deque use {
    Queue, contents, new, push, steal_weak, contents-new, contents-push, steal_weak_stolen,
  }

  -- How often the task stands on the queues of a worker, and of all.
  abbrev pub weight : Worker deque → ℕ
  weight w = occurrences t (contents w.work_queue) + occurrences t w.local_work_queue

  abbrev pub load : List (Worker deque) → ℕ
  load [] = 0
  load (w ∷ ws) = weight w + load ws

  -- On the queues of the workers, or dropped with them.
  abbrev pub kept : Pool deque → ℕ
  kept p = load p.threads + occurrences t p.dropped

  -- Every handle is posted, queued, or has been polled or dropped.
  abbrev pub Balanced : Pool deque → Type 0
  Balanced p = occurrences t p.started ≡ occurrences t p.posted + (kept p + occurrences t p.polled)

  load-set :
      (ws : List (Worker deque)) (i : ℕ) (w w' : Worker deque)
      → get_elem? ws i ≡ some w
      → load (set ws i w') + weight w ≡ load ws + weight w'
  load-set [] i w w' e = cc
  load-set (v ∷ ws) zero w w' e = let same : v ≡ w = cc in rw same (omega arith)
  load-set (v ∷ ws) (suc i) w w' e = omega (arith, load-set ws i w w' e)

  load-replicate : (n : ℕ) → load (replicate n (fresh deque)) ≡ 0
  load-replicate zero = refl
  load-replicate (suc n) =
      omega (arith, load-replicate n, ap (λ (q : List ℕ). occurrences t q) contents-new)

  pub with_concurrency-Balanced : (n : ℕ) → Balanced (with_concurrency deque n)
  unfolding with_concurrency
  with_concurrency-Balanced n = omega (arith, load-replicate n)

  pushed :
      (x : ℕ) (q : Queue) → occurrences t (contents (push x q)) ≡ occurrences t (x ∷ contents q)
  pushed x q = occurrences-perm t (contents-push x q)

  module _ (i : ℕ) (w : Worker deque) (p : Pool deque) (at : get_elem? p.threads i ≡ some w)
      (v : Balanced p) where
    pop_local-Balanced : (l : List ℕ) → w.local_work_queue ≡ l → Balanced (pop_local deque l i w p)
    unfolding pop_local
    pop_local-Balanced [] q = omega (arith, load-set p.threads i w (record w { pc = stealing }) at)
    pop_local-Balanced (x ∷ rest) q = omega (
      arith,
      load-set p.threads i w
          (record w { local_work_queue = rest; borrowed = true; pc = polling_local }) at,
      ap (occurrences t) q,
      occurrences-append t p.polled (x ∷ []),
    )

    after_steal-Balanced :
        (b : Bool) (s : Steal Queue)
        → steal_weak b w.work_queue ≡ s
        → Balanced (after_steal deque s i w p)
    unfolding after_steal
    after_steal-Balanced b (stolen x rest) q = omega (
      arith,
      load-set p.threads i w (record w { work_queue = rest; pc = polling }) at,
      occurrences-perm t (steal_weak_stolen b w.work_queue rest x q),
      occurrences-append t p.polled (x ∷ []),
    )
    after_steal-Balanced b empty q =
        omega (arith, load-set p.threads i w (record w { pc = turning false }) at)
    after_steal-Balanced b inconsistent q =
        omega (arith, load-set p.threads i w (record w { pc = turning true }) at)

    leave-Balanced : (k : Option ℕ) → Balanced (leave deque k i w p)
    unfolding leave
    leave-Balanced none = v
    leave-Balanced (some k) = omega (
      arith,
      load-set p.threads i w (record w { work_queue = new; local_work_queue = []; pc = exited }) at,
      ap (λ (q : List ℕ). occurrences t q) contents-new,
      occurrences-append t p.dropped (contents w.work_queue ++ w.local_work_queue),
      occurrences-append t (contents w.work_queue) w.local_work_queue,
    )

    moved : (pc : Pc) → Balanced (put deque i (record w { pc = pc }) p)
    moved pc = omega (arith, load-set p.threads i w (record w { pc = pc }) at)

    go-Balanced : (b : Bool) (pc : Pc) (u : Pool deque) → go deque b pc i w p ≡ some u → Balanced u
    unfolding go
    go-Balanced b checking u e =
        of_some Balanced _ u e (moved (if p.active then locals else leaving))
    go-Balanced b locals u e = of_some Balanced _ u e (pop_local-Balanced w.local_work_queue refl)
    go-Balanced b stealing u e =
        of_some Balanced _ u e (after_steal-Balanced b (steal_weak b w.work_queue) refl)
    go-Balanced b leaving u e = of_some Balanced _ u e (leave-Balanced (position i p.registered))
    go-Balanced b polling_local u e = cc
    go-Balanced b polling u e = cc
    go-Balanced b (turning wait0) u e = cc
    go-Balanced b exited u e = cc

    push_front-Balanced : (x : ℕ) → Balanced (push_front deque x i w p)
    push_front-Balanced x = omega (
      arith,
      load-set p.threads i w (record w { local_work_queue = x ∷ w.local_work_queue }) at,
      occurrences-append t p.started (x ∷ []),
    )

    push_local-Balanced : (x : ℕ) → Balanced (push_local deque x i w p)
    push_local-Balanced x =
        let outcome =
          λ (b : Bool). Balanced (if b then crash deque p else push_front deque x i w p) in
        elim (Bool-cases w.borrowed) [
          | inl taken ↦ subst outcome (sym taken) v
          | inr free ↦ subst outcome (sym free) (push_front-Balanced x)
        ]

    push_work-Balanced : (x : ℕ) → Balanced (push_work deque x i w p)
    push_work-Balanced x = omega (
      arith,
      load-set p.threads i w (record w { work_queue = push x w.work_queue }) at,
      pushed x w.work_queue,
      occurrences-append t p.started (x ∷ []),
    )

    spawn_local-Balanced :
        (x : ℕ) (pc : Pc) (u : Pool deque) → spawn_local deque x pc i w p ≡ some u → Balanced u
    unfolding spawn_local
    spawn_local-Balanced x polling_local u e = of_some Balanced _ u e (push_local-Balanced x)
    spawn_local-Balanced x polling u e = of_some Balanced _ u e (push_local-Balanced x)
    spawn_local-Balanced x (turning wait0) u e = of_some Balanced _ u e (push_local-Balanced x)
    spawn_local-Balanced x checking u e = cc
    spawn_local-Balanced x locals u e = cc
    spawn_local-Balanced x stealing u e = cc
    spawn_local-Balanced x leaving u e = cc
    spawn_local-Balanced x exited u e = cc

    notify-Balanced :
        (x : ℕ) (pc : Pc) (u : Pool deque) → notify deque x pc i w p ≡ some u → Balanced u
    unfolding notify
    notify-Balanced x polling_local u e = of_some Balanced _ u e (push_work-Balanced x)
    notify-Balanced x polling u e = of_some Balanced _ u e (push_work-Balanced x)
    notify-Balanced x (turning wait0) u e = of_some Balanced _ u e (push_work-Balanced x)
    notify-Balanced x checking u e = cc
    notify-Balanced x locals u e = cc
    notify-Balanced x stealing u e = cc
    notify-Balanced x leaving u e = cc
    notify-Balanced x exited u e = cc

    taken-Balanced :
        (x : ℕ) (rest : List ℕ)
        → p.posted ≡ x ∷ rest
        → Balanced (
            put deque i
              (record w { work_queue = push x w.work_queue })
              (record p { posted = rest }))
    taken-Balanced x rest q = omega (
      arith,
      load-set p.threads i w (record w { work_queue = push x w.work_queue }) at,
      pushed x w.work_queue,
      ap (occurrences t) q,
    )

    handle_remote_spawn-Balanced :
        (pc : Pc) (l : List ℕ) (u : Pool deque)
        → p.posted ≡ l
        → handle_remote_spawn deque pc l i w p ≡ some u
        → Balanced u
    unfolding handle_remote_spawn
    handle_remote_spawn-Balanced (turning wait0) (x ∷ rest) u q e =
        of_some Balanced _ u e (taken-Balanced x rest q)
    handle_remote_spawn-Balanced (turning wait0) [] u q e = cc
    handle_remote_spawn-Balanced checking l u q e = cc
    handle_remote_spawn-Balanced locals l u q e = cc
    handle_remote_spawn-Balanced polling_local l u q e = cc
    handle_remote_spawn-Balanced stealing l u q e = cc
    handle_remote_spawn-Balanced polling l u q e = cc
    handle_remote_spawn-Balanced leaving l u q e = cc
    handle_remote_spawn-Balanced exited l u q e = cc

    come_back-Balanced :
        (pc : Pc) (fine : Bool) (u : Pool deque)
        → come_back deque pc fine i w p ≡ some u
        → Balanced u
    unfolding come_back
    come_back-Balanced polling_local true u e =
        of_some Balanced _ u e
          (omega (arith, load-set p.threads i w (record w { borrowed = false; pc = locals }) at))
    come_back-Balanced polling true u e = of_some Balanced _ u e (moved stealing)
    come_back-Balanced (turning wait0) true u e = of_some Balanced _ u e (moved checking)
    come_back-Balanced polling_local false u e = of_some Balanced _ u e v
    come_back-Balanced polling false u e = of_some Balanced _ u e v
    come_back-Balanced (turning wait0) false u e = of_some Balanced _ u e v
    come_back-Balanced checking fine u e = cc
    come_back-Balanced locals fine u e = cc
    come_back-Balanced stealing fine u e = cc
    come_back-Balanced leaving fine u e = cc
    come_back-Balanced exited fine u e = cc

    pub act-Balanced : (a : Action) (u : Pool deque) → act deque a i w p ≡ some u → Balanced u
    unfolding act
    act-Balanced (goes b) u e = go-Balanced b w.pc u e
    act-Balanced (spawns_local x) u e = spawn_local-Balanced x w.pc u e
    act-Balanced (notifies x) u e = notify-Balanced x w.pc u e
    act-Balanced takes u e = handle_remote_spawn-Balanced w.pc p.posted u refl e
    act-Balanced (returns fine) u e = come_back-Balanced w.pc fine u e
