-- ===== src/ThreadPool/Joint/Handles.antt =====
-- src/evloop/threadpool/mod.rs: the handles of a task, in the pool and in `do_poll`.
use complete_io.Base.{
  ℕ, suc, ◌+◌, ◌<◌, ◌≤◌, ◌≡◌, ◌≢◌, refl, ap, ◌∙◌, true, some, List, [], ◌∷◌, ◌++◌, length,
  occurrences, occurrences-append, total, arith, if◌then◌else◌, ◌==◌,
}
use complete_io.ThreadPool.Task.{
  Task, Place, posted, pushing, queued, entered, looping, polling, polled, live, done, crashed,
  usize_mod,
}
use complete_io.ThreadPool.Task
use complete_io.ThreadPool.Task.Counts.{step-notifies}
use complete_io.ThreadPool.Task.Invariant.{
  Inv, spawn-Inv, step-Inv, handles, suspended, running, finished, ended,
}
use complete_io.ThreadPool.Workers.{Pool, spawns, works, notifies, takes, goes}
use complete_io.ThreadPool.Workers.WorkQueue.{Deque}
use complete_io.ThreadPool.Workers.Balance.{load, kept, Balanced, with_concurrency-Balanced}
use complete_io.ThreadPool.Workers.Flow.{step-Balanced, run-Balanced}
use complete_io.ThreadPool.Joint.{Reaches, spawned, apart, bumped, pushed, taken, stolen, polls}
use complete_io.ThreadPool.Joint.Ledger.{pushes, takes_one, goes_on, spawns_one}
use complete_io.ThreadPool.Joint.Weights.{
  is_posted, is_queued, is_elsewhere, Shift, bumped-Shift, taken-Shift, pushed-Shift, stolen-Shift,
  Polls-Shift,
}

places_split :
    (ps : List Place)
    → total is_posted ps + (total is_queued ps + total is_elsewhere ps) ≡ length ps
places_split [] = refl
places_split (posted ∷ ps) = omega (arith, places_split ps)
places_split (queued ∷ ps) = omega (arith, places_split ps)
places_split (pushing ∷ ps) = omega (arith, places_split ps)
places_split (entered ∷ ps) = omega (arith, places_split ps)
places_split (looping init ∷ ps) = omega (arith, places_split ps)
places_split (polling init ∷ ps) = omega (arith, places_split ps)
places_split (polled init ∷ ps) = omega (arith, places_split ps)

module _ (deque : Deque) (x : ℕ) where
  -- The pool has the handles that the task has there. A handle that is dropped with the queues of a
  -- worker keeps its place in the task, which then no step moves.
  record Joint (p : Pool deque) (t : Task) : Type 0 where
    balanced : Balanced deque x p
    posted_agrees : occurrences x p.posted ≡ total is_posted t.places
    queued_agrees : kept deque x p ≡ total is_queued t.places
    inv : Inv t

  self : (n : ℕ) → (if x == x then 1 else 0) + n ≡ suc n
  self n = ground arith

  grew : (xs ys : List ℕ) → ys ≡ xs ++ x ∷ [] → occurrences x ys ≡ suc (occurrences x xs)
  grew xs ys e = omega (arith, ap (occurrences x) e, occurrences-append x xs (x ∷ []), self 0)

  -- One step of the task, and one of the pool or none, that change the same.
  shifted :
      {p u : Pool deque} {t v : Task} (e : Task.Event) {d g d' g' : ℕ}
      → Joint p t
      → suc v.notifies < usize_mod
      → Task.step e t ≡ some v
      → Shift t v d g d' g'
      → Balanced deque x u
      → occurrences x u.posted + d ≡ occurrences x p.posted + d'
      → kept deque x u + g ≡ kept deque x p + g'
      → Joint u v
  shifted {p} {u} {t} {v} e j b s m bal posts queues = record {
    balanced = bal;
    posted_agrees = omega (arith, j.posted_agrees, m.posted_shift);
    queued_agrees = omega (arith, j.queued_agrees, m.queued_shift);
    inv = step-Inv e t v j.inv (omega (arith, step-notifies e t v s)) s;
  }

  earlier :
      (e : Task.Event) (t v : Task)
      → suc v.notifies < usize_mod
      → Task.step e t ≡ some v
      → suc t.notifies < usize_mod
  earlier e t v b s = omega (arith, step-notifies e t v s)

  joint : {p : Pool deque} {t : Task} → Reaches deque x p t → suc t.notifies < usize_mod → Joint p t
  unfolding Task.spawn
  joint (spawned {p} {u} c es r fresh s) b =
      let before = run-Balanced deque x es _ p (with_concurrency-Balanced deque x c) r in
      let after = step-Balanced deque x (spawns x) p u before s in
      let (started, posts, polls_same) = spawns_one deque x p u s in
      record {
        balanced = after;
        posted_agrees = omega (arith, grew _ _ posts, grew _ _ started, before, fresh);
        queued_agrees = omega (
          arith,
          after,
          grew _ _ posts,
          grew _ _ started,
          ap (occurrences x) polls_same,
          before,
          fresh,
        );
        inv = spawn-Inv Task.global;
      }
  joint (apart {p} {u} {t} e r s m) b =
      let j = joint r b in
      let after = step-Balanced deque x e p u j.balanced s in
      record {
        balanced = after;
        posted_agrees = m.posted ∙ j.posted_agrees;
        queued_agrees =
            omega (arith, after, j.balanced, j.queued_agrees, m.started, m.posted, m.polled);
        inv = j.inv;
      }
  joint (bumped {p} {t} {v} worker r s) b =
      let e = Task.notifies_from worker in
      let j = joint r (earlier e t v b s) in
      shifted e j b s (bumped-Shift worker t v s) j.balanced refl refl
  joint (polls {p} {t} {v} k a q r at in_poll s) b =
      let e = Task.advances k a in
      let j = joint r (earlier e t v b s) in
      shifted e j b s (Polls-Shift t v k a q at in_poll s) j.balanced refl refl
  joint (pushed {p} {u} {t} {v} i k a r at s w) b =
      let e = Task.advances k a in
      let j = joint r (earlier e t v b s) in
      let after = step-Balanced deque x (works i (notifies x)) p u j.balanced w in
      let (started, posts, polls_same) = pushes deque i x p u w in
      shifted e j b s (pushed-Shift t v k a at s) after (ap (λ n. n + 0) (ap (occurrences x) posts))
        (omega (
          arith,
          after,
          j.balanced,
          grew _ _ started,
          ap (occurrences x) posts,
          ap (occurrences x) polls_same,
        ))
  joint (taken {p} {u} {t} {v} i k a rest r at s head w) b =
      let e = Task.advances k a in
      let j = joint r (earlier e t v b s) in
      let after = step-Balanced deque x (works i takes) p u j.balanced w in
      let (started, posts, polls_same) = takes_one deque i x rest p u head w in
      shifted e j b s (taken-Shift t v k a at s) after
        (omega
          (arith, ap (occurrences x) posts, ap (occurrences x) head, self (occurrences x rest)))
        (omega (
          arith,
          after,
          j.balanced,
          ap (occurrences x) started,
          ap (occurrences x) posts,
          ap (occurrences x) polls_same,
          ap (occurrences x) head,
          self (occurrences x rest),
        ))
  joint (stolen {p} {u} {t} {v} i k a busy r at s w got) b =
      let e = Task.advances k a in
      let j = joint r (earlier e t v b s) in
      let after = step-Balanced deque x (works i (goes busy)) p u j.balanced w in
      let (started, posts) = goes_on deque i busy p u w in
      shifted e j b s (stolen-Shift t v k a at s) after (ap (λ n. n + 0) (ap (occurrences x) posts))
        (omega (
          arith,
          after,
          j.balanced,
          ap (occurrences x) started,
          ap (occurrences x) posts,
          grew _ _ got,
        ))

  held :
      (p : Pool deque) (t : Task)
      → Joint p t
      → occurrences x p.posted + (kept deque x p + total is_elsewhere t.places) ≡ length t.places
  held p t j = omega (arith, j.posted_agrees, j.queued_agrees, places_split t.places)

  -- In every state that a pool and a global task of it reach, with fewer than 2^64 - 1 notifications
  -- and as long as no poll of the task has ended the process: the handles of the task in the custom
  -- event, on the queues of all workers, on their way to one and in do_poll are at most one.
  pub one_handle :
      (p : Pool deque) (t : Task)
      → Reaches deque x p t
      → suc t.notifies < usize_mod
      → t.status ≢ crashed
      → occurrences x p.posted + (load deque x p.threads + total is_elsewhere t.places) ≤ 1
  one_handle p t r b alive = let j = joint r b in omega (arith, held p t j, handles j.inv alive)

  places_of : (t : Task) → Inv t → t.status ≡ live → t.notified ≡ true → length t.places ≡ 1
  places_of t (suspended s q l n) a m = cc
  places_of t (running q s e l b sees) a m = ap length e
  places_of t (finished s q l b) a m = cc
  places_of t (ended s) a m = cc

  -- A task that is live and has been notified since its last poll began has its handle in the custom
  -- event, on the queue of one worker, on its way to one or in do_poll, or a worker that left has
  -- dropped it, with fewer than 2^64 - 1 notifications.
  notified_is_held :
      (p : Pool deque) (t : Task)
      → Reaches deque x p t
      → suc t.notifies < usize_mod
      → t.status ≡ live
      → t.notified ≡ true
      → occurrences x p.posted + (kept deque x p + total is_elsewhere t.places) ≡ 1
  notified_is_held p t r b a m = let j = joint r b in held p t j ∙ places_of t j.inv a m
