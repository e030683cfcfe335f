-- ===== src/ThreadPool/Task/Wakeups.antt =====
-- No notification of a task is lost, and a task that is done stays done.
use complete_io.Base.{
  suc, ◌+◌, ◌<◌, ◌≡◌, refl, sym, ap, ◌∙◌, subst, inl, inr, false, some, List, [], ◌∷◌, get_elem?,
  arith, Option-cases,
}
use complete_io.ThreadPool.Task.{
  Kind, Place, posted, pushing, queued, entered, looping, polling, polled, done, Task, not_ready,
  Event, notifies_from, advances, spawn, notify, bump, advance_at, step, run, run_rest, usize_mod,
}
use complete_io.ThreadPool.Task.Invariant.{
  Inv, suspended, running, finished, ended, spawn-Inv, run-Inv, no_handle, notify_pos, step-Inv,
}
use complete_io.ThreadPool.Task.Counts.{notify_count, alive-some, step-notifies, count_cons}

abbrev next_step : Event
next_step = advances 0 not_ready

-- The steps of a handle up to the beginning of the next poll, if the poll under way, if there is one,
-- answers `NotReady`.
abbrev pub repoll : Place → List Event
repoll (looping _) = next_step ∷ []
repoll entered = next_step ∷ next_step ∷ []
repoll queued = next_step ∷ next_step ∷ next_step ∷ []
repoll posted = next_step ∷ next_step ∷ next_step ∷ next_step ∷ []
repoll pushing = next_step ∷ next_step ∷ next_step ∷ next_step ∷ []
repoll (polled _) = next_step ∷ next_step ∷ []
repoll (polling _) = next_step ∷ next_step ∷ next_step ∷ []

abbrev pub Repolls : Task → List Event → Type 0
Repolls t es = (t' : Task) × (run es t ≡ some t') × (t'.polls ≡ suc t.polls) × (t'.notified ≡ false)

record Stays (t u : Task) : Type 0 where
  status : u.status ≡ done
  polls : u.polls ≡ t.polls

step-Stays :
    (e : Event) (t u : Task)
    → Inv t
    → suc (t.notifies + notify_count (e ∷ [])) < usize_mod
    → t.status ≡ done
    → step e t ≡ some u
    → Stays t u
unfolding step
step-Stays e t u (suspended s p l n) h d q = cc
step-Stays e t u (running p s x l b sees) h d q = cc
step-Stays e t u (ended s) h d q = cc
step-Stays (notifies_from worker) t u (finished s p l b) h d q =
    let made : some (notify worker t) ≡ some u = alive-some t.status _ q in
    let same : bump t ≡ u = sym (notify_pos worker t l) ∙ cc in
    subst (Stays t) same (record { status = d; polls = refl })
step-Stays (advances i answer) t u (finished s p l b) h d q = absurd (
    no_handle i answer t u
      (subst (λ ps. advance_at i answer (get_elem? ps i) t ≡ some u) p (alive-some t.status _ q)))

run-Stays :
    (es : List Event) (t u : Task)
    → Inv t
    → suc (t.notifies + notify_count es) < usize_mod
    → t.status ≡ done
    → run es t ≡ some u
    → Stays t u
unfolding run
run-Stays [] t u v h d q =
    let same : t ≡ u = cc in subst (Stays t) same (record { status = d; polls = refl })
run-Stays (e ∷ es) t u v h d q = elim (Option-cases (step e t)) [
  | inl stuck ↦ cc (sym (ap (run_rest (run es)) stuck) ∙ q)
  | inr (x, moved) ↦
      let one = step-Stays e t x v (omega (arith, count_cons e es)) d moved in
      let rest =
        run-Stays es x u (step-Inv e t x v (omega (arith, count_cons e es)) moved)
          (omega (arith, count_cons e es, step-notifies e t x moved)) one.status
          (sym (ap (run_rest (run es)) moved) ∙ q) in
      record { status = rest.status; polls = rest.polls ∙ one.polls }
]

-- A task whose future has come to its end is never polled again, however often its wakers, which
-- may outlive it, are used: with fewer than 2^64 - 1 notifications in all, it stays done.
pub done_is_final :
    (kind : Kind) (es more : List Event) (t u : Task)
    → suc (notify_count es) < usize_mod
    → suc (t.notifies + notify_count more) < usize_mod
    → run es (spawn kind) ≡ some t
    → t.status ≡ done
    → run more t ≡ some u
    → (u.status ≡ done) × (u.polls ≡ t.polls)
unfolding spawn
done_is_final kind es more t u h k e d q =
    let s = run-Stays more t u (run-Inv es (spawn kind) t (spawn-Inv kind) (omega arith) e) k d q in
    (s.status, s.polls)
