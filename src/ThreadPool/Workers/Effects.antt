-- ===== src/ThreadPool/Workers/Effects.antt =====
-- src/evloop/threadpool/mod.rs: what one event of a worker does to the vector of workers, and to where
-- that worker stands.
use complete_io.Base.{
  ℕ, ◌≡◌, refl, sym, subst, ap, ◌∙◌, Bool, true, false, Option, none, some, List, [], ◌∷◌,
  swap_remove, of_some, Bool-cases, inl, inr, if◌then◌else◌,
}
use complete_io.ThreadPool.Workers.WorkQueue.{Deque, Steal, stolen, empty, inconsistent}
use complete_io.ThreadPool.Workers.{
  Pc, checking, locals, polling_local, stealing, polling, turning, leaving, exited, Action, goes,
  spawns_local, notifies, takes, returns, position, set, Worker, Pool, pop_local, after_steal,
  leave, crash, push_front, go, push_local, spawn_local, notify, handle_remote_spawn, come_back,
  act,
}

-- 1 for a worker that has not left.
abbrev pub standing : Pc → ℕ
standing exited = 0
standing checking = 1
standing locals = 1
standing polling_local = 1
standing stealing = 1
standing polling = 1
standing (turning wait0) = 1
standing leaving = 1

-- The guard of the borrow of the local queue is there.
abbrev pub guarded : Pc → Bool
guarded polling_local = true
guarded checking = false
guarded locals = false
guarded stealing = false
guarded polling = false
guarded (turning wait0) = false
guarded leaving = false
guarded exited = false

module _ (deque : Deque) where
  -- The cell of the local queue is borrowed exactly while a guard is there.
  abbrev pub HasGuard : Worker deque → Type 0
  HasGuard w = w.borrowed ≡ guarded w.pc

  open deque use {Queue, new, push, steal_weak}

  -- What an action of a worker does to the vector and to where the worker stands.
  pub data Effect (i : ℕ) (w : Worker deque) (p u : Pool deque) : Type 0 where
    stays :
        (w' : Worker deque)
        → u.threads ≡ set p.threads i w'
        → u.registered ≡ p.registered
        → standing w'.pc ≡ standing w.pc
        → (HasGuard w → HasGuard w')
        → Effect i w p u
    crashes : u.threads ≡ p.threads → u.registered ≡ p.registered → Effect i w p u
    leaves :
        (k : ℕ)
        → w.pc ≡ leaving
        → position i p.registered ≡ some k
        → u.threads
          ≡ set p.threads i (record w { work_queue = new; local_work_queue = []; pc = exited })
        → u.registered ≡ swap_remove p.registered k
        → Effect i w p u

  module _ (i : ℕ) (w : Worker deque) (p : Pool deque) where
    pop_local-Effect : (l : List ℕ) → w.pc ≡ locals → Effect i w p (pop_local deque l i w p)
    unfolding pop_local
    pop_local-Effect [] q = stays _ refl refl (rw q refl) (λ g. g ∙ ap guarded q)
    pop_local-Effect (x ∷ rest) q = stays _ refl refl (rw q refl) (λ g. refl)

    after_steal-Effect :
        (s : Steal Queue) → w.pc ≡ stealing → Effect i w p (after_steal deque s i w p)
    unfolding after_steal
    after_steal-Effect (stolen x rest) q = stays _ refl refl (rw q refl) (λ g. g ∙ ap guarded q)
    after_steal-Effect empty q = stays _ refl refl (rw q refl) (λ g. g ∙ ap guarded q)
    after_steal-Effect inconsistent q = stays _ refl refl (rw q refl) (λ g. g ∙ ap guarded q)

    leave-Effect :
        (o : Option ℕ)
        → position i p.registered ≡ o
        → w.pc ≡ leaving
        → Effect i w p (leave deque o i w p)
    unfolding leave
    leave-Effect none e q = crashes refl refl
    leave-Effect (some k) e q = leaves k q e refl refl

    checked-standing : (b : Bool) → standing (if b then locals else leaving) ≡ 1
    checked-standing true = refl
    checked-standing false = refl

    checked-guarded : (b : Bool) → guarded (if b then locals else leaving) ≡ false
    checked-guarded true = refl
    checked-guarded false = refl

    go-Effect :
        (b : Bool) (pc : Pc) (u : Pool deque)
        → w.pc ≡ pc
        → go deque b pc i w p ≡ some u
        → Effect i w p u
    unfolding go
    go-Effect b checking u q e = of_some (Effect i w p) _ u e (
        stays _ refl refl (checked-standing p.active ∙ rw q refl)
          (λ g. g ∙ ap guarded q ∙ sym (checked-guarded p.active)))
    go-Effect b locals u q e = of_some (Effect i w p) _ u e (pop_local-Effect w.local_work_queue q)
    go-Effect b stealing u q e =
        of_some (Effect i w p) _ u e (after_steal-Effect (steal_weak b w.work_queue) q)
    go-Effect b leaving u q e =
        of_some (Effect i w p) _ u e (leave-Effect (position i p.registered) refl q)
    go-Effect b polling_local u q e = cc
    go-Effect b polling u q e = cc
    go-Effect b (turning wait0) u q e = cc
    go-Effect b exited u q e = cc

    push_local-Effect : (x : ℕ) → Effect i w p (push_local deque x i w p)
    push_local-Effect x =
        let outcome =
          λ (b : Bool). Effect i w p (if b then crash deque p else push_front deque x i w p) in
        elim (Bool-cases w.borrowed) [
          | inl taken ↦ subst outcome (sym taken) (crashes refl refl)
          | inr free ↦ subst outcome (sym free) (stays _ refl refl refl (λ g. g))
        ]

    spawn_local-Effect :
        (x : ℕ) (pc : Pc) (u : Pool deque) → spawn_local deque x pc i w p ≡ some u → Effect i w p u
    unfolding spawn_local
    spawn_local-Effect x polling_local u e = of_some (Effect i w p) _ u e (push_local-Effect x)
    spawn_local-Effect x polling u e = of_some (Effect i w p) _ u e (push_local-Effect x)
    spawn_local-Effect x (turning wait0) u e = of_some (Effect i w p) _ u e (push_local-Effect x)
    spawn_local-Effect x checking u e = cc
    spawn_local-Effect x locals u e = cc
    spawn_local-Effect x stealing u e = cc
    spawn_local-Effect x leaving u e = cc
    spawn_local-Effect x exited u e = cc

    notify-Effect :
        (x : ℕ) (pc : Pc) (u : Pool deque) → notify deque x pc i w p ≡ some u → Effect i w p u
    unfolding notify
    notify-Effect x polling_local u e =
        of_some (Effect i w p) _ u e (stays _ refl refl refl (λ g. g))
    notify-Effect x polling u e = of_some (Effect i w p) _ u e (stays _ refl refl refl (λ g. g))
    notify-Effect x (turning wait0) u e =
        of_some (Effect i w p) _ u e (stays _ refl refl refl (λ g. g))
    notify-Effect x checking u e = cc
    notify-Effect x locals u e = cc
    notify-Effect x stealing u e = cc
    notify-Effect x leaving u e = cc
    notify-Effect x exited u e = cc

    handle_remote_spawn-Effect :
        (pc : Pc) (l : List ℕ) (u : Pool deque)
        → handle_remote_spawn deque pc l i w p ≡ some u
        → Effect i w p u
    unfolding handle_remote_spawn
    handle_remote_spawn-Effect (turning wait0) (x ∷ rest) u e =
        of_some (Effect i w p) _ u e (stays _ refl refl refl (λ g. g))
    handle_remote_spawn-Effect (turning wait0) [] u e = cc
    handle_remote_spawn-Effect checking l u e = cc
    handle_remote_spawn-Effect locals l u e = cc
    handle_remote_spawn-Effect polling_local l u e = cc
    handle_remote_spawn-Effect stealing l u e = cc
    handle_remote_spawn-Effect polling l u e = cc
    handle_remote_spawn-Effect leaving l u e = cc
    handle_remote_spawn-Effect exited l u e = cc

    come_back-Effect :
        (pc : Pc) (fine : Bool) (u : Pool deque)
        → w.pc ≡ pc
        → come_back deque pc fine i w p ≡ some u
        → Effect i w p u
    unfolding come_back
    come_back-Effect polling_local true u q e =
        of_some (Effect i w p) _ u e (stays _ refl refl (rw q refl) (λ g. refl))
    come_back-Effect polling true u q e =
        of_some (Effect i w p) _ u e (stays _ refl refl (rw q refl) (λ g. g ∙ ap guarded q))
    come_back-Effect (turning wait0) true u q e =
        of_some (Effect i w p) _ u e (stays _ refl refl (rw q refl) (λ g. g ∙ ap guarded q))
    come_back-Effect polling_local false u q e = of_some (Effect i w p) _ u e (crashes refl refl)
    come_back-Effect polling false u q e = of_some (Effect i w p) _ u e (crashes refl refl)
    come_back-Effect (turning wait0) false u q e = of_some (Effect i w p) _ u e (crashes refl refl)
    come_back-Effect checking fine u q e = cc
    come_back-Effect locals fine u q e = cc
    come_back-Effect stealing fine u q e = cc
    come_back-Effect leaving fine u q e = cc
    come_back-Effect exited fine u q e = cc

    pub act-Effect : (a : Action) (u : Pool deque) → act deque a i w p ≡ some u → Effect i w p u
    unfolding act
    act-Effect (goes b) u e = go-Effect b w.pc u refl e
    act-Effect (spawns_local x) u e = spawn_local-Effect x w.pc u e
    act-Effect (notifies x) u e = notify-Effect x w.pc u e
    act-Effect takes u e = handle_remote_spawn-Effect w.pc p.posted u e
    act-Effect (returns fine) u e = come_back-Effect w.pc fine u refl e
