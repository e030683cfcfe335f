-- ===== src/ThreadPool/Workers/Borrow.antt =====
-- src/evloop/threadpool/mod.rs: when the local queue of a worker is borrowed, and what `spawn_local`
-- does then.
use complete_io.Base.{
  ℕ, zero, suc, ◌≡◌, refl, sym, ap, ◌∙◌, inl, inr, Bool, true, false, Option, none, some,
  Option-cases, Bool-cases, List, [], ◌∷◌, get_elem?, else_some, of_some, if◌then◌else◌, ◌==◌,
}
use complete_io.ThreadPool.Workers.WorkQueue.{Deque}
use complete_io.ThreadPool.Workers.{
  Pc, polling_local, polling, turning, Action, spawns_local, Event, spawns, shuts_down, works,
  replicate, set, Worker, Pool, fresh, with_concurrency, crash, push_front, push_local, spawn_local,
  act, act_at, happen, step, run, run_rest,
}
use complete_io.ThreadPool.Workers.Positions.{get_elem?-set}
use complete_io.ThreadPool.Workers.Effects.{
  guarded, HasGuard, Effect, stays, crashes, leaves, act-Effect,
}

-- The worker runs code of a task or of a handler.
abbrev pub runs_code : Pc → Bool
runs_code polling_local = true
runs_code polling = true
runs_code (turning wait0) = true
runs_code pc = false

module _ (deque : Deque) where
  abbrev AllGuarded : Pool deque → Type 0
  AllGuarded p = (j : ℕ) (w : Worker deque) → get_elem? p.threads j ≡ some w → HasGuard deque w

  set-AllGuarded :
      (ws : List (Worker deque)) (i : ℕ) (w w' : Worker deque)
      → get_elem? ws i ≡ some w
      → HasGuard deque w'
      → ((j : ℕ) (v : Worker deque) → get_elem? ws j ≡ some v → HasGuard deque v)
      → (j : ℕ) (v : Worker deque) → get_elem? (set ws i w') j ≡ some v
      → HasGuard deque v
  set-AllGuarded ws i w w' at g all j v e =
      let after : (if i == j then some w' else get_elem? ws j) ≡ some v =
        sym (get_elem?-set ws i j w w' at) ∙ e in
      elim (Bool-cases (i == j)) [
        | inl h ↦
            of_some (HasGuard deque) w' v
              (sym (ap (λ b. if b then some w' else get_elem? ws j) h) ∙ after) g
        | inr h ↦ all j v (sym (ap (λ b. if b then some w' else get_elem? ws j) h) ∙ after)
      ]

  Effect-AllGuarded :
      (i : ℕ) (w : Worker deque) (p u : Pool deque)
      → get_elem? p.threads i ≡ some w
      → Effect deque i w p u
      → AllGuarded p
      → AllGuarded u
  Effect-AllGuarded i w p u at (stays w' e f q g) all j v h =
      set-AllGuarded p.threads i w w' at (g (all i w at)) all j v
        (ap (λ ws. get_elem? ws j) (sym e) ∙ h)
  Effect-AllGuarded i w p u at (crashes e f) all j v h =
      all j v (ap (λ ws. get_elem? ws j) (sym e) ∙ h)
  Effect-AllGuarded i w p u at (leaves k q f e g) all j v h =
      set-AllGuarded p.threads i w _ at (all i w at ∙ ap guarded q) all j v
        (ap (λ ws. get_elem? ws j) (sym e) ∙ h)

  act_at-AllGuarded :
      (o : Option (Worker deque)) (a : Action) (i : ℕ) (p u : Pool deque)
      → get_elem? p.threads i ≡ o
      → AllGuarded p
      → act_at deque o a i p ≡ some u
      → AllGuarded u
  act_at-AllGuarded none a i p u at all e = cc
  act_at-AllGuarded (some w) a i p u at all e =
      Effect-AllGuarded i w p u at (act-Effect deque i w p a u e) all

  happen-AllGuarded :
      (e : Event) (p u : Pool deque) → AllGuarded p → happen deque e p ≡ some u → AllGuarded u
  unfolding happen
  happen-AllGuarded (spawns x) p u all q = of_some AllGuarded _ u q all
  happen-AllGuarded shuts_down p u all q = of_some AllGuarded _ u q all
  happen-AllGuarded (works i a) p u all q =
      act_at-AllGuarded (get_elem? p.threads i) a i p u refl all q

  run-AllGuarded :
      (es : List Event) (p u : Pool deque) → AllGuarded p → run deque es p ≡ some u → AllGuarded u
  unfolding run step
  run-AllGuarded [] p u all q = of_some AllGuarded p u q all
  run-AllGuarded (e ∷ es) p u all q = elim (Option-cases (step deque e p)) [
    | inl stuck ↦ cc (sym (ap (run_rest deque (run deque es)) stuck) ∙ q)
    | inr (x, moved) ↦
        run-AllGuarded es x u (happen-AllGuarded e p x all (else_some p.ended _ x moved).1)
          (sym (ap (run_rest deque (run deque es)) moved) ∙ q)
  ]

  fresh-AllGuarded :
      (n j : ℕ) (w : Worker deque)
      → get_elem? (replicate n (fresh deque)) j ≡ some w
      → HasGuard deque w
  fresh-AllGuarded zero j w e = cc
  fresh-AllGuarded (suc n) zero w e = of_some (HasGuard deque) (fresh deque) w e refl
  fresh-AllGuarded (suc n) (suc j) w e = fresh-AllGuarded n j w e

  spawns_at :
      (x : ℕ) (c : Pc) (i : ℕ) (w : Worker deque) (p : Pool deque)
      → runs_code c ≡ true
      → spawn_local deque x c i w p ≡ some (push_local deque x i w p)
  unfolding spawn_local
  spawns_at x polling_local i w p r = refl
  spawns_at x polling i w p r = refl
  spawns_at x (turning b) i w p r = refl
  spawns_at x c i w p r = cc

  -- In every state that a new pool reaches, a task that spawns a local task on the thread of its
  -- worker, or a handler of a turn that does, ends the process exactly if it is a local task that is
  -- polled there; in every other place the new task goes to the front of the local queue.
  pub local_spawns :
      (concurrency : ℕ) (es : List Event) (p : Pool deque) (i x : ℕ) (w : Worker deque)
      → run deque es (with_concurrency deque concurrency) ≡ some p
      → p.ended ≡ false
      → get_elem? p.threads i ≡ some w
      → runs_code w.pc ≡ true
      → step deque (works i (spawns_local x)) p
        ≡ some (if guarded w.pc then crash deque p else push_front deque x i w p)
  unfolding step happen act with_concurrency
  local_spawns concurrency es p i x w q live at r =
      let all : AllGuarded p =
        run-AllGuarded es (with_concurrency deque concurrency) p
          (λ j v e. fresh-AllGuarded concurrency j v e) q in
      ap (λ b. if b then none else happen deque (works i (spawns_local x)) p) live
      ∙ ap (λ o. act_at deque o (spawns_local x) i p) at
      ∙ spawns_at x w.pc i w p r
      ∙ ap (λ b. some (if b then crash deque p else push_front deque x i w p)) (all i w at)
