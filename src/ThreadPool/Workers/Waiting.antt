-- ===== src/ThreadPool/Workers/Waiting.antt =====
-- src/evloop/threadpool/mod.rs: a worker that waits in a turn, and its local tasks.
use complete_io.Base.{
  ℕ, ◌≡◌, ◌≢◌, refl, sym, ap, ◌∙◌, subst, inl, inr, Bool, false, Bool-cases, if◌then◌else◌, Option,
  none, some, Option-cases, List, [], ◌∷◌, ◌++◌, get_elem?, ◌==◌, ==_iff, else_some, of_some,
}
use complete_io.ThreadPool.Workers.WorkQueue.{Deque}
use complete_io.ThreadPool.Workers.{
  turning, Action, goes, spawns_local, notifies, takes, returns, Event, spawns, shuts_down, works,
  set, Worker, Pool, crash, push_front, go, push_local, spawn_local, notify, handle_remote_spawn,
  act, act_at, happen, step, run, run_rest,
}
use complete_io.ThreadPool.Workers.Positions.{get_elem?-set_self, get_elem?-set_other}
use complete_io.ThreadPool.Workers.Effects.{Effect, stays, crashes, leaves, act-Effect}

-- No event is the return of the turn of the worker `i`.
abbrev pub KeepsTurning : ℕ → List Event → Type 0
KeepsTurning i [] = Unit {0}
KeepsTurning i (works j (returns fine) ∷ es) = ((j == i) ≡ false) × KeepsTurning i es
KeepsTurning i (e ∷ es) = KeepsTurning i es

module _ (deque : Deque) (i : ℕ) where
  -- The worker waits in a turn without a timeout, and these tasks are on its local queue.
  pub record Waits (l : List ℕ) (p : Pool deque) : Type 0 where
    pub self : Worker deque
    pub at : get_elem? p.threads i ≡ some self
    pub turns : self.pc ≡ turning false
    pub more : List ℕ
    pub queue : self.local_work_queue ≡ more ++ l

  module _ (l : List ℕ) where
    pushed-Waits :
        (p u : Pool deque) (w w' : Worker deque) (more : List ℕ)
        → get_elem? p.threads i ≡ some w
        → u.threads ≡ set p.threads i w'
        → w'.pc ≡ turning false
        → w'.local_work_queue ≡ more ++ l
        → Waits l u
    pushed-Waits p u w w' more at e t q = record {
      self = w';
      at = ap (λ ws. get_elem? ws i) e ∙ get_elem?-set_self p.threads i w w' at;
      turns = t;
      more = more;
      queue = q;
    }

    take-Waits :
        (posted : List ℕ) (p u : Pool deque) (w : Worker deque) (more : List ℕ)
        → get_elem? p.threads i ≡ some w
        → w.pc ≡ turning false
        → w.local_work_queue ≡ more ++ l
        → handle_remote_spawn deque (turning false) posted i w p ≡ some u
        → Waits l u
    unfolding handle_remote_spawn
    take-Waits [] p u w more at t q e = cc
    take-Waits (x ∷ rest) p u w more at t q e =
        of_some (Waits l) _ u e (
          pushed-Waits p _ w (record w { work_queue = deque.push x w.work_queue }) more at refl t q)

    local-Waits : (x : ℕ) (p : Pool deque) (v : Waits l p) → Waits l (push_local deque x i v.self p)
    local-Waits x p v =
        let outcome =
          λ (b : Bool). Waits l (if b then crash deque p else push_front deque x i v.self p) in
        let same : Waits l (crash deque p) = record {
          self = v.self;
          at = v.at;
          turns = v.turns;
          more = v.more;
          queue = v.queue;
        } in
        elim (Bool-cases v.self.borrowed) [
          | inl taken ↦ subst outcome (sym taken) same
          | inr free ↦ subst outcome (sym free) (
              pushed-Waits p (push_front deque x i v.self p) v.self
                (record v.self { local_work_queue = x ∷ v.self.local_work_queue }) (x ∷ v.more) v.at
                refl v.turns (ap (x ∷◌) v.queue))
        ]

    own-Waits :
        (a : Action) (p u : Pool deque)
        → ((fine : Bool) → a ≢ returns fine)
        → (v : Waits l p) → act deque a i v.self p ≡ some u
        → Waits l u
    unfolding act go spawn_local notify
    own-Waits (goes b) p u n v e = cc (sym (ap (λ c. go deque b c i v.self p) v.turns) ∙ e)
    own-Waits (spawns_local x) p u n v e =
        of_some (Waits l) _ u (sym (ap (λ c. spawn_local deque x c i v.self p) v.turns) ∙ e)
          (local-Waits x p v)
    own-Waits (notifies x) p u n v e =
        of_some (Waits l) _ u (sym (ap (λ c. notify deque x c i v.self p) v.turns) ∙ e) (
          pushed-Waits p _ v.self (record v.self { work_queue = deque.push x v.self.work_queue })
            v.more v.at refl v.turns v.queue)
    own-Waits takes p u n v e =
        take-Waits p.posted p u v.self v.more v.at v.turns v.queue
          (sym (ap (λ c. handle_remote_spawn deque c p.posted i v.self p) v.turns) ∙ e)
    own-Waits (returns fine) p u n v e = absurd (n fine refl)

    other_threads :
        (j : ℕ) (w : Worker deque) (p u : Pool deque)
        → (j == i) ≡ false
        → get_elem? p.threads j ≡ some w
        → Effect deque j w p u
        → get_elem? u.threads i ≡ get_elem? p.threads i
    other_threads j w p u n at (stays w' e f q g) =
        ap (λ ws. get_elem? ws i) e ∙ get_elem?-set_other p.threads j i w w' at n
    other_threads j w p u n at (crashes e f) = ap (λ ws. get_elem? ws i) e
    other_threads j w p u n at (leaves k q f e g) =
        ap (λ ws. get_elem? ws i) e ∙ get_elem?-set_other p.threads j i w _ at n

    other-Waits :
        (j : ℕ) (o : Option (Worker deque)) (a : Action) (p u : Pool deque)
        → (j == i) ≡ false
        → get_elem? p.threads j ≡ o
        → Waits l p
        → act_at deque o a j p ≡ some u
        → Waits l u
    other-Waits j none a p u n at v e = cc
    other-Waits j (some w) a p u n at v e = record {
      self = v.self;
      at = other_threads j w p u n at (act-Effect deque j w p a u e) ∙ v.at;
      turns = v.turns;
      more = v.more;
      queue = v.queue;
    }

    works-Waits :
        (j : ℕ) (a : Action) (p u : Pool deque)
        → ((fine : Bool) → a ≡ returns fine → (j == i) ≡ false)
        → Waits l p
        → happen deque (works j a) p ≡ some u
        → Waits l u
    unfolding happen
    works-Waits j a p u n v e = elim (Bool-cases (j == i)) [
      | inl h ↦
          let same : j ≡ i = (==_iff j i).0 h in
          let at : get_elem? p.threads j ≡ some v.self =
            subst (λ k. get_elem? p.threads k ≡ some v.self) (sym same) v.at in
          let mine : act deque a i v.self p ≡ some u =
            subst (λ k. act deque a k v.self p ≡ some u) same
              (sym (ap (λ o. act_at deque o a j p) at) ∙ e) in
          own-Waits a p u (λ fine r. cc (sym h ∙ n fine r)) v mine
      | inr h ↦ other-Waits j (get_elem? p.threads j) a p u h refl v e
    ]

    kept-Waits : (p u : Pool deque) → u.threads ≡ p.threads → Waits l p → Waits l u
    kept-Waits p u e v = record {
      self = v.self;
      at = ap (λ ws. get_elem? ws i) e ∙ v.at;
      turns = v.turns;
      more = v.more;
      queue = v.queue;
    }

    happen-Waits :
        (e : Event) (es : List Event) (p u : Pool deque)
        → KeepsTurning i (e ∷ es)
        → Waits l p
        → happen deque e p ≡ some u
        → Waits l u × KeepsTurning i es
    unfolding happen
    happen-Waits (spawns x) es p u k v e = (of_some (Waits l) _ u e (kept-Waits p _ refl v), k)
    happen-Waits shuts_down es p u k v e = (of_some (Waits l) _ u e (kept-Waits p _ refl v), k)
    happen-Waits (works j (goes b)) es p u k v e = (works-Waits j (goes b) p u (λ f r. cc) v e, k)
    happen-Waits (works j (spawns_local x)) es p u k v e =
        (works-Waits j (spawns_local x) p u (λ f r. cc) v e, k)
    happen-Waits (works j (notifies x)) es p u k v e =
        (works-Waits j (notifies x) p u (λ f r. cc) v e, k)
    happen-Waits (works j takes) es p u k v e = (works-Waits j takes p u (λ f r. cc) v e, k)
    happen-Waits (works j (returns fine)) es p u k v e =
        (works-Waits j (returns fine) p u (λ f r. k.0) v e, k.1)

    pub run-Waits :
        (es : List Event) (p u : Pool deque)
        → KeepsTurning i es
        → Waits l p
        → run deque es p ≡ some u
        → Waits l u
    unfolding run step
    run-Waits [] p u k v q = of_some (Waits l) p u q v
    run-Waits (e ∷ es) p u k v q = elim (Option-cases (step deque e p)) [
      | inl stuck ↦ cc (sym (ap (run_rest deque (run deque es)) stuck) ∙ q)
      | inr (x, moved) ↦
          let (w, k') = happen-Waits e es p x k v (else_some p.ended _ x moved).1 in
          run-Waits es x u k' w (sym (ap (run_rest deque (run deque es)) moved) ∙ q)
    ]
