-- ===== src/ThreadPool/Workers/Spawned.antt =====
-- src/evloop/threadpool/mod.rs: the way of a task from `spawn_future` over the custom event to its poll.
use complete_io.Base.{
  ℕ, ◌≡◌, refl, ap, ◌∙◌, Bool, true, false, some, List, [], ◌∷◌, ◌++◌, get_elem?, Perm,
}
use mathlib.Core.List.{perm_middle}
use mathlib.Core.List.Perm
use complete_io.ThreadPool.Workers.WorkQueue.{Deque}
use complete_io.ThreadPool.Workers.{
  Event, works, checking, turning, takes, returns, run, run_rest, Pool, put, act,
  handle_remote_spawn, come_back,
}
use complete_io.ThreadPool.Workers.Drain.{Alone, At, worker, step-act, put-At, worker_drains}

module _ (deque : Deque) (i : ℕ) where
  open deque use {Queue, contents, push, contents-push}

  -- The worker takes each of these tasks from the custom event, and then comes back from its turn.
  abbrev pub take_each : List ℕ → List Event
  take_each [] = works i (returns true) ∷ []
  take_each (x ∷ xs) = works i takes ∷ take_each xs

  take_all :
      (xs : List ℕ) {b : Bool} {q : Queue} {l ps : List ℕ} (p : Pool deque)
      → p.posted ≡ xs
      → At deque i (turning b) q l ps p
      → (u : Pool deque) × (run deque (take_each xs) p ≡ some u)
        × (r : Queue) × Perm (contents r) (xs ++ contents q)
        × (u.active ≡ p.active)
        × At deque i checking r l ps u
  unfolding act handle_remote_spawn come_back run
  take_all [] {b} {q} {l} p e v = (
    put deque i (worker deque i checking q l) p,
    ap (run_rest deque (run deque [])) (step-act deque i p (returns true) v),
    q,
    Perm.refl (contents q),
    refl,
    put-At deque i p v,
  )
  take_all (x ∷ xs) {b} {q} {l} p e v =
      let p0 = record p { posted = xs } in
      let p1 = put deque i (worker deque i (turning b) (push x q) l) p0 in
      let v0 : At deque i (turning b) q l _ p0 = record {
        at = v.at;
        alive = v.alive;
        done = v.done;
      } in
      let v1 : At deque i (turning b) (push x q) l _ p1 = put-At deque i p0 v0 in
      let (u, path, r, same, on, w) = take_all xs p1 refl v1 in
      let moved =
        step-act deque i p takes v
        ∙ ap (λ m. handle_remote_spawn deque (turning b) m i (worker deque i (turning b) q l) p)
            e in
      (
        u,
        ap (run_rest deque (run deque (take_each xs))) moved ∙ path,
        r,
        Perm.trans same
            (Perm.trans (Perm.append_left xs (contents-push x q)) (perm_middle xs (contents q))),
        on,
        w,
      )

  -- A worker of an active pool that is in a turn takes each task that was spawned from the custom
  -- event and comes back from the turn. Then it polls, by its own steps and before it comes back from
  -- another turn, its local tasks and then each task that was spawned or stood on its queue, once, if
  -- these only run to the end of `do_poll`.
  pub spawned_is_polled :
      (b : Bool) (q : Queue) (l : List ℕ) (p : Pool deque)
      → p.active ≡ true
      → p.ended ≡ false
      → get_elem? p.threads i
        ≡ some (record { work_queue = q; local_work_queue = l; borrowed = false; pc = turning b })
      → (m : Pool deque) × (run deque (take_each p.posted) p ≡ some m)
        × (u : Pool deque) × Alone deque i m u
        × (gs : List ℕ) × Perm gs (p.posted ++ contents q)
        × (u.polled ≡ (p.polled ++ l) ++ gs)
  spawned_is_polled b q l p on live at =
      let v : At deque i (turning b) q l p.polled p = record {
        at = at;
        alive = live;
        done = refl;
      } in
      let (m, path, r, same, on', v1) = take_all p.posted p refl v in
      let (u, path', gs, same', polled, left, none_left, stands) =
        worker_drains deque i r l m (on' ∙ on) v1.alive v1.at in
      (m, path, u, path', gs, Perm.trans same' same, polled ∙ ap (λ m. (m ++ l) ++ gs) v1.done)
