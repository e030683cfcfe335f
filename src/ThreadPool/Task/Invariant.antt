-- ===== src/ThreadPool/Task/Invariant.antt =====
-- At any time at most one handle of a task exists, and a notification that no poll has seen yet
-- keeps one in being. The signal level does not wrap as long as there are fewer than 2^64 - 1
-- notifications.
use complete_io.Base.{
  ℕ, zero, suc, ◌+◌, ◌<◌, ◌≤◌, ◌≡◌, ◌≢◌, refl, sym, ap, ◌∙◌, subst, inl, inr, Bool, true, false,
  some, List, [], ◌∷◌, ◌++◌, get_elem?, swap_remove, ◌==◌, arith, Bool-cases, Option-cases, length,
  swap_remove_only, ==_iff,
}
use complete_io.ThreadPool.Task.{
  Kind, global, local, Place, posted, pushing, queued, entered, looping, polling, polled, live,
  done, crashed, Task, Answer, ready, not_ready, failed, Event, notifies_from, advances, spawn,
  notify, advance, wake, bump, replace, advance_at, step, run, run_rest, usize_mod,
}
use complete_io.ThreadPool.Task.Counts.{
  alive-some, not_alive, step-notifies, count_cons, notify_count,
}

-- A poll that is under way, or over, will be repeated if the task has been notified since.
abbrev pub Sees : Place → Task → Type 0
Sees (looping init) t = init ≤ t.level
Sees (polling init) t = (init ≤ t.level) × ((t.notified ≡ true) → init < t.level)
Sees (polled init) t = (init ≤ t.level) × ((t.notified ≡ true) → init < t.level)
Sees _ t = Unit {0}

pub data Inv (t : Task) : Type 0 where
  suspended : t.status ≡ live → t.places ≡ [] → t.level ≡ 0 → t.notified ≡ false → Inv t
  running :
      (p : Place)
      → t.status ≡ live
      → t.places ≡ p ∷ []
      → 0 < t.level
      → t.level ≤ suc t.notifies
      → Sees p t
      → Inv t
  finished : t.status ≡ done → t.places ≡ [] → 0 < t.level → t.level ≤ suc t.notifies → Inv t
  ended : t.status ≡ crashed → Inv t

pub spawn-Inv : (k : Kind) → Inv (spawn k)
unfolding spawn
spawn-Inv global = running posted refl refl (omega arith) (omega arith) tt
spawn-Inv local = running queued refl refl (omega arith) (omega arith) tt

wake-Inv :
    (k : Kind) (worker : Bool) (t : Task)
    → t.status ≡ live
    → t.places ≡ []
    → 0 < t.level
    → t.level ≤ suc t.notifies
    → Inv (wake k worker t)
wake-Inv global true t s e l b = running pushing s (ap (λ ps. ps ++ pushing ∷ []) e) l b tt
wake-Inv global false t s e l b = ended refl
wake-Inv local worker t s e l b = ended refl

notify_zero :
    (worker : Bool) (t : Task) → t.level ≡ 0 → notify worker t ≡ wake t.kind worker (bump t)
unfolding notify
notify_zero worker t e = ground arith

pub notify_pos : (worker : Bool) (t : Task) → 0 < t.level → notify worker t ≡ bump t
unfolding notify
notify_pos worker t e = ground arith

-- A notification that does not find the level at 0 is seen by the compare-exchange.
bump-Sees : (p : Place) (t : Task) → Sees p t → suc t.level < usize_mod → Sees p (bump t)
bump-Sees posted t s h = tt
bump-Sees pushing t s h = tt
bump-Sees queued t s h = tt
bump-Sees entered t s h = tt
bump-Sees (looping init) t s h = omega arith
bump-Sees (polling init) t s h = (omega arith, λ _. omega arith)
bump-Sees (polled init) t s h = (omega arith, λ _. omega arith)

-- `wake` and `bump` leave a process that has ended as it is.
notify-crashed :
    (worker : Bool) (t : Task) → t.status ≡ crashed → (notify worker t).status ≡ crashed
unfolding notify
notify-crashed worker t e = ground arith

notify-Inv :
    (worker : Bool) (t : Task) → Inv t → suc (suc t.notifies) < usize_mod → Inv (notify worker t)
notify-Inv worker t (suspended s p l n) h =
    subst Inv (sym (notify_zero worker t l))
      (wake-Inv t.kind worker (bump t) s p (omega arith) (omega arith))
notify-Inv worker t (running p s e l b sees) h =
    subst Inv (sym (notify_pos worker t l))
      (running p s e (omega arith) (omega arith) (bump-Sees p t sees (omega arith)))
notify-Inv worker t (finished s e l b) h =
    subst Inv (sym (notify_pos worker t l)) (finished s e (omega arith) (omega arith))
notify-Inv worker t (ended s) h = ended (notify-crashed worker t s)

unseen : (b : Bool) → ((b ≡ true) → ⊥) → b ≡ false
unseen true h = absurd (h refl)
unseen false h = refl

still : (a b : ℕ) → b < a → (a == b) ≡ true → ⊥
still a b h e = absurd (omega (arith, (==_iff a b).0 e))

-- The only handle steps.
advance-Inv :
    (answer : Answer) (p : Place) (t : Task)
    → t.status ≡ live
    → t.places ≡ p ∷ []
    → 0 < t.level
    → t.level ≤ suc t.notifies
    → Sees p t
    → Inv (advance 0 answer p t)
unfolding advance
advance-Inv answer posted t s e l b h = running queued s (ap (replace 0 queued) e) l b tt
advance-Inv answer pushing t s e l b h = running queued s (ap (replace 0 queued) e) l b tt
advance-Inv answer queued t s e l b h = running entered s (ap (replace 0 entered) e) l b tt
advance-Inv answer entered t s e l b h =
    running (looping t.level) s (ap (replace 0 (looping t.level)) e) l b (omega arith)
advance-Inv answer (looping init) t s e l b h =
    running (polling init) s (ap (replace 0 (polling init)) e) l b (h, λ q. cc)
advance-Inv not_ready (polling init) t s e l b h =
    running (polled init) s (ap (replace 0 (polled init)) e) l b h
advance-Inv ready (polling init) t s e l b h =
    finished refl (ap (λ ps. swap_remove ps 0) e ∙ swap_remove_only (polling init)) l b
advance-Inv failed (polling init) t s e l b h = ended refl
advance-Inv answer (polled init) t s e l b h = elim (Bool-cases (t.level == init)) [
  | inl same ↦ rw same (
      suspended s (ap (λ ps. swap_remove ps 0) e ∙ swap_remove_only (polled init)) refl
        (unseen t.notified (λ q. still t.level init (h.1 q) same)))
  | inr other ↦
      rw other (running (looping t.level) s (ap (replace 0 (looping t.level)) e) l b (omega arith))
]

-- A step of a handle, when there is none, or one.
pub no_handle :
    (i : ℕ) (answer : Answer) (t t' : Task) → advance_at i answer (get_elem? [] i) t ≡ some t' → ⊥
no_handle i answer t t' e = cc

one_handle :
    (i : ℕ) (answer : Answer) (p : Place) (t t' : Task)
    → advance_at i answer (get_elem? (p ∷ []) i) t ≡ some t'
    → advance 0 answer p t ≡ t'
one_handle zero answer p t t' e = cc
one_handle (suc i) answer p t t' e = cc

pub step-Inv :
    (e : Event) (t t' : Task)
    → Inv t
    → suc (t.notifies + notify_count (e ∷ [])) < usize_mod
    → step e t ≡ some t'
    → Inv t'
unfolding step
step-Inv (notifies_from worker) t t' v h e =
    let same : some (notify worker t) ≡ some t' = alive-some t.status _ e in
    subst Inv (cc same) (notify-Inv worker t v (omega arith))
step-Inv (advances i answer) t t' (suspended s p l n) h e = absurd (
    no_handle i answer t t'
      (subst (λ ps. advance_at i answer (get_elem? ps i) t ≡ some t') p (alive-some t.status _ e)))
step-Inv (advances i answer) t t' (running p s q l b sees) h e =
    subst Inv
      (one_handle i answer p t t' (
        subst (λ ps. advance_at i answer (get_elem? ps i) t ≡ some t') q (alive-some t.status _ e)))
      (advance-Inv answer p t s q l b sees)
step-Inv (advances i answer) t t' (finished s q l b) h e = absurd (
    no_handle i answer t t'
      (subst (λ ps. advance_at i answer (get_elem? ps i) t ≡ some t') q (alive-some t.status _ e)))
step-Inv (advances i answer) t t' (ended s) h e = absurd (not_alive t.status _ s e)

pub run-Inv :
    (es : List Event) (t t' : Task)
    → Inv t
    → suc (t.notifies + notify_count es) < usize_mod
    → run es t ≡ some t'
    → Inv t'
unfolding run
run-Inv [] t t' v h e = subst Inv (cc e) v
run-Inv (x ∷ es) t t' v h e = elim (Option-cases (step x t)) [
  | inl stuck ↦ cc (sym (ap (run_rest (run es)) stuck) ∙ e)
  | inr (u, moved) ↦
      run-Inv es u t' (step-Inv x t u v (omega (arith, count_cons x es)) moved)
        (omega (arith, count_cons x es, step-notifies x t u moved))
        (sym (ap (run_rest (run es)) moved) ∙ e)
]

pub handles : {t : Task} → Inv t → t.status ≢ crashed → length t.places ≤ 1
handles (suspended s p l n) a = rw p (omega arith)
handles (running p s q l b sees) a = rw q (omega arith)
handles (finished s q l b) a = rw q (omega arith)
handles (ended s) a = absurd (a s)

-- However a new task is notified and its handles step, with fewer than 2^64 - 1 notifications in all,
-- it has at most one handle: the future in its `UnsafeCell` is never polled twice at a time.
pub run-exclusive :
    (kind : Kind) (es : List Event) (t : Task)
    → suc (notify_count es) < usize_mod
    → run es (spawn kind) ≡ some t
    → t.status ≢ crashed
    → length t.places ≤ 1
unfolding spawn
run-exclusive kind es t h e alive =
    handles (run-Inv es (spawn kind) t (spawn-Inv kind) (omega arith) e) alive
