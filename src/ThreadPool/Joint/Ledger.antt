-- ===== src/ThreadPool/Joint/Ledger.antt =====
-- src/evloop/threadpool/mod.rs: what a step of the pool changes in what was started, posted and polled.
use complete_io.Base.{
  ℕ, ◌≡◌, refl, sym, ap, ◌∙◌, Bool, Option, none, some, List, [], ◌∷◌, ◌++◌, get_elem?, else_some,
  of_some,
}
use complete_io.ThreadPool.Workers.WorkQueue.{Deque, Steal, stolen, empty, inconsistent}
use complete_io.ThreadPool.Workers.{
  Pc, checking, locals, polling_local, stealing, polling, turning, leaving, exited, Action, goes,
  notifies, takes, spawns, works, position, Worker, Pool, pop_local, after_steal, leave, go, notify,
  handle_remote_spawn, act, act_at, happen, step,
}

module _ (deque : Deque) where
  open deque use {Queue, steal_weak}

  at_worker :
      (i : ℕ) (a : Action) (p u : Pool deque) (o : Option (Worker deque))
      → act_at deque o a i p ≡ some u
      → (w : Worker deque) × (act deque a i w p ≡ some u)
  at_worker i a p u none e = cc
  at_worker i a p u (some w) e = (w, e)

  acts :
      (i : ℕ) (a : Action) (p u : Pool deque)
      → step deque (works i a) p ≡ some u
      → (w : Worker deque) × (act deque a i w p ≡ some u)
  unfolding step happen
  acts i a p u e = at_worker i a p u (get_elem? p.threads i) (else_some p.ended _ u e).1

  module _ (i : ℕ) (w : Worker deque) (p u : Pool deque) where
    abbrev Pushed : ℕ → Pool deque → Type 0
    Pushed x v = (v.started ≡ p.started ++ x ∷ []) × (v.posted ≡ p.posted) × (v.polled ≡ p.polled)

    notify-Pushed : (x : ℕ) (c : Pc) → notify deque x c i w p ≡ some u → Pushed x u
    unfolding notify
    notify-Pushed x polling_local e = of_some (Pushed x) _ u e (refl, refl, refl)
    notify-Pushed x polling e = of_some (Pushed x) _ u e (refl, refl, refl)
    notify-Pushed x (turning b) e = of_some (Pushed x) _ u e (refl, refl, refl)
    notify-Pushed x checking e = cc
    notify-Pushed x locals e = cc
    notify-Pushed x stealing e = cc
    notify-Pushed x leaving e = cc
    notify-Pushed x exited e = cc

    abbrev Taken : List ℕ → Pool deque → Type 0
    Taken rest v = (v.started ≡ p.started) × (v.posted ≡ rest) × (v.polled ≡ p.polled)

    handle_remote_spawn-Taken :
        (x : ℕ) (rest : List ℕ) (c : Pc)
        → handle_remote_spawn deque c (x ∷ rest) i w p ≡ some u
        → Taken rest u
    unfolding handle_remote_spawn
    handle_remote_spawn-Taken x rest (turning b) e = of_some (Taken rest) _ u e (refl, refl, refl)
    handle_remote_spawn-Taken x rest polling_local e = cc
    handle_remote_spawn-Taken x rest polling e = cc
    handle_remote_spawn-Taken x rest checking e = cc
    handle_remote_spawn-Taken x rest locals e = cc
    handle_remote_spawn-Taken x rest stealing e = cc
    handle_remote_spawn-Taken x rest leaving e = cc
    handle_remote_spawn-Taken x rest exited e = cc

    abbrev Went : Pool deque → Type 0
    Went v = (v.started ≡ p.started) × (v.posted ≡ p.posted)

    pop_local-Went : (l : List ℕ) → Went (pop_local deque l i w p)
    unfolding pop_local
    pop_local-Went [] = (refl, refl)
    pop_local-Went (x ∷ l) = (refl, refl)

    after_steal-Went : (s : Steal Queue) → Went (after_steal deque s i w p)
    unfolding after_steal
    after_steal-Went (stolen x r) = (refl, refl)
    after_steal-Went empty = (refl, refl)
    after_steal-Went inconsistent = (refl, refl)

    leave-Went : (o : Option ℕ) → Went (leave deque o i w p)
    unfolding leave
    leave-Went none = (refl, refl)
    leave-Went (some k) = (refl, refl)

    go-Went : (busy : Bool) (c : Pc) → go deque busy c i w p ≡ some u → Went u
    unfolding go
    go-Went busy checking e = of_some Went _ u e (refl, refl)
    go-Went busy locals e = of_some Went _ u e (pop_local-Went w.local_work_queue)
    go-Went busy stealing e = of_some Went _ u e (after_steal-Went (steal_weak busy w.work_queue))
    go-Went busy leaving e = of_some Went _ u e (leave-Went (position i p.registered))
    go-Went busy polling_local e = cc
    go-Went busy polling e = cc
    go-Went busy (turning b) e = cc
    go-Went busy exited e = cc

  pub pushes :
      (i x : ℕ) (p u : Pool deque)
      → step deque (works i (notifies x)) p ≡ some u
      → (u.started ≡ p.started ++ x ∷ []) × (u.posted ≡ p.posted) × (u.polled ≡ p.polled)
  unfolding act
  pushes i x p u e =
      let (w, acted) = acts i (notifies x) p u e in notify-Pushed i w p u x w.pc acted

  pub takes_one :
      (i x : ℕ) (rest : List ℕ) (p u : Pool deque)
      → p.posted ≡ x ∷ rest
      → step deque (works i takes) p ≡ some u
      → (u.started ≡ p.started) × (u.posted ≡ rest) × (u.polled ≡ p.polled)
  unfolding act
  takes_one i x rest p u q e =
      let (w, acted) = acts i takes p u e in
      handle_remote_spawn-Taken i w p u x rest w.pc
        (sym (ap (λ m. handle_remote_spawn deque w.pc m i w p) q) ∙ acted)

  pub goes_on :
      (i : ℕ) (busy : Bool) (p u : Pool deque)
      → step deque (works i (goes busy)) p ≡ some u
      → (u.started ≡ p.started) × (u.posted ≡ p.posted)
  unfolding act
  goes_on i busy p u e =
      let (w, acted) = acts i (goes busy) p u e in go-Went i w p u busy w.pc acted

  pub spawns_one :
      (x : ℕ) (p u : Pool deque)
      → step deque (spawns x) p ≡ some u
      → (u.started ≡ p.started ++ x ∷ []) × (u.posted ≡ p.posted ++ x ∷ []) × (u.polled ≡ p.polled)
  unfolding step happen
  spawns_one x p u e =
      of_some
        (λ v.
          (v.started ≡ p.started ++ x ∷ [])
          × (v.posted ≡ p.posted ++ x ∷ [])
          × (v.polled ≡ p.polled))
        _ u (else_some p.ended _ u e).1 (refl, refl, refl)
