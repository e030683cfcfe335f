-- ===== src/ThreadPool/Workers/Drain.antt =====
-- src/evloop/threadpool/mod.rs: a worker that is let alone empties its queues and goes to wait.
use complete_io.Base.{
  ℕ, zero, suc, Bool, Option, ◌≡◌, refl, sym, ap, ◌∙◌, subst, true, false, none, some, List, [],
  ◌∷◌, ◌++◌, append_assoc, append-nil, get_elem?, length, length-perm, Perm, if◌then◌else◌, arith,
}
use mathlib.Core.List.Perm
use complete_io.ThreadPool.Workers.WorkQueue.{Deque, Steal, stolen, empty, inconsistent}
use complete_io.ThreadPool.Workers.{
  Pc, checking, locals, polling_local, stealing, polling, turning, leaving, Action, goes, returns,
  works, Worker, Pool, put, pop_local, after_steal, go, come_back, act, act_at, happen, step,
}
use complete_io.ThreadPool.Workers.Effects.{guarded}
use complete_io.ThreadPool.Workers.Positions.{get_elem?-set_self}

module _ (deque : Deque) where
  open deque use {Queue, contents, steal_weak, steal_weak_stolen, steal_weak_empty, steal_weak_calm}

  -- The worker is in `do_poll`.
  abbrev pub in_poll : Pc → Bool
  in_poll polling_local = true
  in_poll polling = true
  in_poll pc = false

  abbrev pub polls : Option (Worker deque) → Bool
  polls none = false
  polls (some w) = in_poll w.pc

  -- Steps of `run_worker` on the thread of the worker `i`, and nothing else in the pool: it goes on in its
  -- loop, or comes back from a `do_poll` in which nothing was spawned or notified. It does not come back
  -- from a turn.
  pub data Alone (i : ℕ) : Pool deque → Pool deque → Type 0 where
    here : {p : Pool deque} → Alone i p p
    goes_on :
        {p q u : Pool deque}
        → step deque (works i (goes false)) p ≡ some q
        → Alone i q u
        → Alone i p u
    ends_poll :
        {p q u : Pool deque}
        → polls (get_elem? p.threads i) ≡ true
        → step deque (works i (returns true)) p ≡ some q
        → Alone i q u
        → Alone i p u

  module _ (i : ℕ) where
    Alone-trans : {p q u : Pool deque} → Alone i p q → Alone i q u → Alone i p u
    Alone-trans here b = b
    Alone-trans (goes_on e rest) b = goes_on e (Alone-trans rest b)
    Alone-trans (ends_poll h e rest) b = ends_poll h e (Alone-trans rest b)

    abbrev pub worker : Pc → Queue → List ℕ → Worker deque
    worker c q l = record { work_queue = q; local_work_queue = l; borrowed = guarded c; pc = c }

    -- The worker stands at `c` with these queues; these tasks have been polled.
    pub record At (c : Pc) (q : Queue) (l polled : List ℕ) (p : Pool deque) : Type 0 where
      pub at : get_elem? p.threads i ≡ some (worker c q l)
      pub alive : p.ended ≡ false
      pub done : p.polled ≡ polled

    pub step-act :
        {c : Pc} {q : Queue} {l ps : List ℕ} (p : Pool deque) (a : Action)
        → At c q l ps p
        → step deque (works i a) p ≡ act deque a i (worker c q l) p
    unfolding step
    step-act p a v =
        ap (λ b. if b then none else happen deque (works i a) p) v.alive
        ∙ ap (λ o. act_at deque o a i p) v.at

    pub put-At :
        {c c' : Pc} {q q' : Queue} {l l' ps : List ℕ} (p : Pool deque)
        → At c q l ps p
        → At c' q' l' ps (put deque i (worker c' q' l') p)
    put-At {c} {c'} {q} {q'} {l} {l'} p v = record {
      at = get_elem?-set_self p.threads i (worker c q l) (worker c' q' l') v.at;
      alive = v.alive;
      done = v.done;
    }

    pub polled-At :
        {c : Pc} {q : Queue} {l ps : List ℕ} (p : Pool deque) (x : ℕ)
        → At c q l ps p
        → At c q l (ps ++ x ∷ []) (record p { polled = p.polled ++ x ∷ [] })
    polled-At p x v = record { at = v.at; alive = v.alive; done = ap (λ l. l ++ x ∷ []) v.done }

    drain_locals :
        (l : List ℕ) {q : Queue} {ps : List ℕ} (p : Pool deque)
        → At locals q l ps p
        → (u : Pool deque) × Alone i p u × At stealing q [] (ps ++ l) u
    unfolding act go pop_local come_back
    drain_locals [] {q} {ps} p v =
        let u = put deque i (worker stealing q []) p in
        (
          u,
          goes_on (step-act p (goes false) v) here,
          subst (λ l. At stealing q [] l u) (sym (append-nil ps)) (put-At p v),
        )
    drain_locals (x ∷ l) {q} {ps} p v =
        let p1 =
          put deque i (worker polling_local q l) (record p { polled = p.polled ++ x ∷ [] }) in
        let v1 : At polling_local q l (ps ++ x ∷ []) p1 = put-At _ (polled-At p x v) in
        let p2 = put deque i (worker locals q l) p1 in
        let (u, path, w) = drain_locals l p2 (put-At p1 v1) in
        (
          u,
          goes_on (step-act p (goes false) v)
              (ends_poll (ap polls v1.at) (step-act p1 (returns true) v1) path),
          subst (λ m. At stealing q [] m u) (append_assoc ps (x ∷ []) l) w,
        )

    -- The worker waits in a turn without a timeout, with nothing on its queues, and has polled `gs` last.
    abbrev Drained : List ℕ → Queue → Pool deque → Type 0
    Drained ps q p =
        (u : Pool deque) × Alone i p u
        × (gs : List ℕ) × Perm gs (contents q)
        × (r : Queue) × (contents r ≡ [])
        × At (turning false) r [] (ps ++ gs) u

    drain_steal :
        (n : ℕ) (s : Steal Queue) {q : Queue} {ps : List ℕ} (p : Pool deque)
        → length (contents q) ≡ n
        → steal_weak false q ≡ s
        → At stealing q [] ps p
        → Drained ps q p
    unfolding act go after_steal come_back
    drain_steal n inconsistent {q} p k e v = absurd (steal_weak_calm q e)
    drain_steal n empty {q} {ps} p k e v =
        let u = put deque i (worker (turning false) q []) p in
        let none_left : contents q ≡ [] = steal_weak_empty false q e in
        (
          u,
          goes_on
              (step-act p (goes false) v
                ∙ ap (λ s. some (after_steal deque s i (worker stealing q []) p)) e)
              here,
          [],
          rw none_left (Perm.refl []),
          q,
          none_left,
          subst (λ l. At (turning false) q [] l u) (sym (append-nil ps)) (put-At p v),
        )
    drain_steal zero (stolen x r) {q} p k e v =
        absurd (omega (arith, length-perm (steal_weak_stolen false q r x e)))
    drain_steal (suc n) (stolen x r) {q} {ps} p k e v =
        let p1 = put deque i (worker polling r []) (record p { polled = p.polled ++ x ∷ [] }) in
        let v1 : At polling r [] (ps ++ x ∷ []) p1 = put-At _ (polled-At p x v) in
        let p2 = put deque i (worker stealing r []) p1 in
        let fewer : length (contents r) ≡ n =
          omega (arith, length-perm (steal_weak_stolen false q r x e)) in
        let (u, path, gs, same, q', none_left, w) =
          drain_steal n (steal_weak false r) p2 fewer refl (put-At p1 v1) in
        (
          u,
          goes_on
              (step-act p (goes false) v
                ∙ ap (λ s. some (after_steal deque s i (worker stealing q []) p)) e)
              (ends_poll (ap polls v1.at) (step-act p1 (returns true) v1) path),
          x ∷ gs,
          Perm.trans (Perm.cons x same) (Perm.symm (steal_weak_stolen false q r x e)),
          q',
          none_left,
          subst (λ m. At (turning false) q' [] m u) (append_assoc ps (x ∷ []) gs) w,
        )

  -- The drain of a worker ends: if the pool is active, a worker at the head of its loop whose tasks
  -- only run to the end of `do_poll` polls, by its own steps and before it comes back from any turn,
  -- its local tasks in order and then its global ones, each once, and goes into a turn without a
  -- timeout, with both queues empty.
  pub worker_drains :
      (i : ℕ) (q : Queue) (l : List ℕ) (p : Pool deque)
      → p.active ≡ true
      → p.ended ≡ false
      → get_elem? p.threads i
        ≡ some (record { work_queue = q; local_work_queue = l; borrowed = false; pc = checking })
      → (u : Pool deque) × Alone i p u
        × (gs : List ℕ) × Perm gs (contents q)
        × (u.polled ≡ (p.polled ++ l) ++ gs)
        × (r : Queue) × (contents r ≡ [])
        × (get_elem? u.threads i
            ≡ some (record {
              work_queue = r;
              local_work_queue = [];
              borrowed = false;
              pc = turning false;
            }))
  unfolding act go
  worker_drains i q l p on live at =
      let v : At i checking q l p.polled p = record { at = at; alive = live; done = refl } in
      let p1 = put deque i (worker i locals q l) p in
      let (p2, path, v2) = drain_locals i l p1 (put-At i p v) in
      let (u, path', gs, same, r, none_left, w) =
        drain_steal i (length (contents q)) (steal_weak false q) p2 refl refl v2 in
      (
        u,
        goes_on
            (step-act i p (goes false) v
              ∙ ap
                  (λ b. some (
                    put deque i
                      (record (worker i checking q l) { pc = if b then locals else leaving }) p))
                  on)
            (Alone-trans i path path'),
        gs,
        same,
        w.done,
        r,
        none_left,
        w.at,
      )
