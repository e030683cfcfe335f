-- ===== src/ThreadPool/Task/Counts.antt =====
-- How many notifications a step of a task counts, and steps that the end of the process forbids.
use complete_io.Base.{
  ℕ, suc, ◌+◌, ◌≡◌, refl, sym, ap, ◌∙◌, inl, inr, Bool, true, false, Option, none, some, List, [],
  ◌∷◌, get_elem?, ◌==◌, arith, Bool-cases,
}
use complete_io.ThreadPool.Task.{
  Kind, global, local, Place, posted, polling, polled, Status, live, done, crashed, Task, Answer,
  ready, Event, notifies_from, advances, notify, advance, wake, bump, advance_at, if_alive, step,
}

abbrev pub notify_count : List Event → ℕ
notify_count [] = 0
notify_count (notifies_from _ ∷ es) = suc (notify_count es)
notify_count (advances _ _ ∷ es) = notify_count es

pub alive-some : (s : Status) (o : Option Task) {t : Task} → if_alive s o ≡ some t → o ≡ some t
alive-some live o e = e
alive-some done o e = e
alive-some crashed o e = cc

pub not_alive : (s : Status) (o : Option Task) {t : Task} → s ≡ crashed → if_alive s o ≡ some t → ⊥
not_alive live o c e = cc
not_alive done o c e = cc
not_alive crashed o c e = cc

notifies-wake : (k : Kind) (worker : Bool) (t : Task) → (wake k worker t).notifies ≡ t.notifies
notifies-wake global true t = refl
notifies-wake global false t = refl
notifies-wake local worker t = refl

notifies-notify : (worker : Bool) (t : Task) → (notify worker t).notifies ≡ suc t.notifies
unfolding notify
notifies-notify worker t = elim (Bool-cases (t.level == 0)) [
  | inl z ↦ rw z (notifies-wake t.kind worker (bump t))
  | inr n ↦ rw n
]

notifies-advance :
    (i : ℕ) (answer : Answer) (p : Place) (t : Task) → (advance i answer p t).notifies ≡ t.notifies
unfolding advance
notifies-advance i answer posted t = refl
notifies-advance i answer (polled init) t = ground arith
notifies-advance i ready (polling init) t = refl
notifies-advance i answer p t = refl

notifies-advance_at :
    (i : ℕ) (answer : Answer) (o : Option Place) (t : Task) {u : Task}
    → advance_at i answer o t ≡ some u
    → u.notifies ≡ t.notifies
notifies-advance_at i answer none t e = cc
notifies-advance_at i answer (some p) t {u} e =
    let same : advance i answer p t ≡ u = cc in
    ap (λ (x : Task). x.notifies) (sym same) ∙ notifies-advance i answer p t

pub step-notifies :
    (e : Event) (t u : Task) → step e t ≡ some u → u.notifies ≡ t.notifies + notify_count (e ∷ [])
unfolding step
step-notifies (notifies_from worker) t u e =
    let made : some (notify worker t) ≡ some u = alive-some t.status _ e in
    let same : notify worker t ≡ u = cc in
    omega (arith, ap (λ (x : Task). x.notifies) same, notifies-notify worker t)
step-notifies (advances i answer) t u e =
    omega (arith, notifies-advance_at i answer (get_elem? t.places i) t (alive-some t.status _ e))

pub count_cons :
    (e : Event) (es : List Event) → notify_count (e ∷ es) ≡ notify_count (e ∷ []) + notify_count es
count_cons (notifies_from _) es = omega arith
count_cons (advances _ _) es = omega arith
