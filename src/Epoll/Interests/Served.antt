-- ===== src/Epoll/Interests/Served.antt =====
-- src/epoll/mod.rs: an interest that waits is woken once by the first event that is for it.
use complete_io.Base.{
  ℕ, zero, suc, ◌+◌, ◌<◌, ◌≤◌, ◌≡◌, refl, sym, ap, ◌∙◌, subst, inl, inr, ◌⊎◌, true, false, not,
  Option, some, Option-cases, Bool-cases, List, [], ◌∷◌, ◌++◌, map, occurrences, occurrences-perm,
  total, total-perm, select-true, select-false, IoError, Result, if◌then◌else◌, ◌==◌, arith,
}
use complete_io.Epoll.Mask.{EventMask}
use complete_io.Epoll.Interests.{World, notified, delivered, wakes, add_interest}
use complete_io.Epoll.Interests.Loop.{kept_by, woken_by}
use complete_io.Epoll.Interests.Wakeup.{Handled, handle_event-Handled}
use complete_io.Epoll.Interests.Tracked.{
  ids, IsTracked, elem-occurrences, Handled-IsTracked, woken-occurrences, add_interest-IsTracked,
}
use complete_io.Epoll.Interests.Fired.{
  notifications, notifications-map, notifications-rearmed, Over, run-Over,
}
use complete_io.Epoll.Interests.Runs.{
  Op, adds, handles, reports, added-some, handled, handled-some, step, run, run_rest,
}

module _ (e : EventMask) (id : ℕ) where
  -- An entry of the interest that the event would not wake.
  abbrev pub off : EventMask × ℕ → ℕ
  off x = if x.1 == id then (if wakes e x.0 then 0 else 1) else 0

  total-snoc :
      (xs : List (EventMask × ℕ)) (x : EventMask × ℕ)
      → total off (xs ++ x ∷ []) ≡ total off xs + off x
  total-snoc [] x = omega arith
  total-snoc (y ∷ xs) x = omega (arith, total-snoc xs x)

  total-occurrences : (xs : List (EventMask × ℕ)) → total off xs ≤ occurrences id (ids xs)
  total-occurrences [] = omega arith
  total-occurrences (x ∷ xs) = ground (arith, total-occurrences xs)

  total-kept_by :
      (events : EventMask) (xs : List (EventMask × ℕ))
      → total off (kept_by events xs) ≤ total off xs
  total-kept_by events [] = omega arith
  total-kept_by events (x ∷ xs) = elim (Bool-cases (wakes events x.0)) [
    | inl t ↦
        rw (select-false (λ y. not (wakes events y.0)) x xs (ap not t))
          (omega (arith, total-kept_by events xs))
    | inr f ↦
        rw (select-true (λ y. not (wakes events y.0)) x xs (ap not f))
          (omega (arith, total-kept_by events xs))
  ]

  occurrences-woken_by :
      (xs : List (EventMask × ℕ))
      → total off xs ≡ 0
      → occurrences id (ids (woken_by e xs)) ≡ occurrences id (ids xs)
  occurrences-woken_by [] h = refl
  occurrences-woken_by (x ∷ xs) h = elim (Bool-cases (wakes e x.0)) [
    | inl t ↦
        rw (select-true (λ y. wakes e y.0) x xs t)
          (omega (arith, occurrences-woken_by xs (ground arith)))
    | inr f ↦
        rw (select-false (λ y. wakes e y.0) x xs f)
          (ground (arith, occurrences-woken_by xs (ground arith)))
  ]

  -- The interest waits, the event would wake it, and it has had `n` notifications.
  pub record Waits (n : ℕ) (w : World) : Type 0 where
    pub tracked : IsTracked w
    pub waiting : w.fired id ≡ false
    pub made : id < w.next
    pub apt : total off w.interests ≡ 0
    pub count : notifications id w.log ≡ n

  heard :
      (kernel : ℕ → Option IoError) {events : EventMask} {w w' : World} {r : Result (Unit {0})}
      (h : Handled kernel events w r w')
      → notifications id w'.log ≡ occurrences id h.woken + notifications id w.log
  heard kernel {w = w} {w' = w'} h =
      ap (notifications id) h.log
      ∙ notifications-rearmed kernel id w'.interests (map notified h.woken ++ w.log)
      ∙ notifications-map id h.woken w.log

  module _ (kernel : ℕ → Option IoError) {n : ℕ} where
    -- Its one occurrence is woken, or stays.
    once :
        {events : EventMask} {w w' : World} {r : Result (Unit {0})}
        (h : Handled kernel events w r w')
        → Waits n w
        → occurrences id (ids w'.interests) + occurrences id h.woken ≡ 1
    once {w = w} h v = ground (arith, woken-occurrences h id, v.tracked id, v.waiting, v.made)

    woken-Over :
        {events : EventMask} {w w' : World} {r : Result (Unit {0})}
        (h : Handled kernel events w r w')
        → Waits n w
        → occurrences id h.woken ≡ 1
        → Over id (suc n) w'
    woken-Over {w' = w'} h v q = record {
      tracked = Handled-IsTracked h v.tracked;
      fired = h.fired id ∙ ground (arith, elem-occurrences id h.woken);
      count = heard kernel h ∙ omega (arith, v.count);
    }

    kept-Waits :
        {events : EventMask} {w w' : World} {r : Result (Unit {0})}
        (h : Handled kernel events w r w')
        → Waits n w
        → occurrences id h.woken ≡ 0
        → Waits n w'
    kept-Waits {events} {w} {w'} h v q = record {
      tracked = Handled-IsTracked h v.tracked;
      waiting = h.fired id ∙ ground (arith, elem-occurrences id h.woken, v.waiting);
      made = omega (arith, v.made, h.next);
      apt = omega (arith, total-perm off h.kept_perm, total-kept_by events w.interests, v.apt);
      count = heard kernel h ∙ omega (arith, v.count);
    }

    Handled-cases :
        (m : ℕ) {events : EventMask} {w w' : World} {r : Result (Unit {0})}
        (h : Handled kernel events w r w')
        → occurrences id h.woken ≡ m
        → Waits n w
        → Waits n w' ⊎ Over id (suc n) w'
    Handled-cases zero h q v = inl (kept-Waits h v q)
    Handled-cases (suc m) h q v = inr (woken-Over h v (omega (arith, once h v)))

    -- The event that is for it comes.
    served :
        {w w' : World} {r : Result (Unit {0})} (h : Handled kernel e w r w')
        → Waits n w
        → Over id (suc n) w'
    served {w = w} h v = woken-Over h v (
        occurrences-perm id h.woken_perm
        ∙ occurrences-woken_by w.interests v.apt
        ∙ ground (arith, v.tracked id, v.waiting, v.made))

    add-Waits :
        (me : ℕ) (events : EventMask) (w : World)
        → Waits n w
        → Waits n (add_interest kernel me events w).1
    unfolding add_interest
    add-Waits me events w v = record {
      tracked = add_interest-IsTracked kernel me events w v.tracked;
      waiting = ground (arith, v.waiting, v.made);
      made = ground (arith, v.made);
      apt = ground (arith, total-snoc w.interests (events, w.next), v.made, v.apt);
      count = ground (arith, v.count);
    }

    delivered-Waits :
        (events : EventMask) (w : World)
        → Waits n w
        → Waits n (record w { log = delivered events ∷ w.log })
    delivered-Waits events w v = record {
      tracked = v.tracked;
      waiting = v.waiting;
      made = v.made;
      apt = v.apt;
      count = v.count;
    }

    step-Waits :
        (op : Op) (w w' : World)
        → Waits n w
        → step kernel op w ≡ some w'
        → Waits n w' ⊎ Over id (suc n) w'
    unfolding step
    step-Waits (adds me events) w w' v q =
        inl (
          subst (Waits n) (added-some (add_interest kernel me events w) q)
            (add-Waits me events w v))
    step-Waits (reports events) w w' v q = inl (subst (Waits n) (cc q) (delivered-Waits events w v))
    step-Waits (handles events) w w' v q =
        let (r, u, out, h) = handle_event-Handled kernel events w in
        subst (λ x. Waits n x ⊎ Over id (suc n) x) (handled-some r u (ap handled (sym out) ∙ q))
          (Handled-cases (occurrences id h.woken) h refl v)

    now_served :
        (w w' : World) → Waits n w → step kernel (handles e) w ≡ some w' → Over id (suc n) w'
    unfolding step
    now_served w w' v q =
        let (r, u, out, h) = handle_event-Handled kernel e w in
        subst (Over id (suc n)) (handled-some r u (ap handled (sym out) ∙ q)) (served h v)

    -- Whatever is called before and after it, the event wakes the interest, which is notified once.
    pub run-served :
        (before after : List Op) (w w' : World)
        → Waits n w
        → run kernel (before ++ handles e ∷ after) w ≡ some w'
        → Over id (suc n) w'
    unfolding run
    run-served [] after w w' v q = elim (Option-cases (step kernel (handles e) w)) [
      | inl stuck ↦ cc (sym (ap (run_rest kernel (run kernel after)) stuck) ∙ q)
      | inr (x, moved) ↦
          run-Over kernel after x w' (now_served w x v moved)
            (sym (ap (run_rest kernel (run kernel after)) moved) ∙ q)
    ]
    run-served (op ∷ ops) after w w' v q =
        let rest = run_rest kernel (run kernel (ops ++ handles e ∷ after)) in
        elim (Option-cases (step kernel op w)) [
          | inl stuck ↦ cc (sym (ap rest stuck) ∙ q)
          | inr (x, moved) ↦ elim (step-Waits op w x v moved) [
            | inl still ↦ run-served ops after x w' still (sym (ap rest moved) ∙ q)
            | inr over ↦
                run-Over kernel (ops ++ handles e ∷ after) x w' over (sym (ap rest moved) ∙ q)
          ]
        ]

  -- A new interest that the event is for waits.
  pub new-Waits :
      (kernel : ℕ → Option IoError) (me : ℕ) (events : EventMask) (w : World)
      → IsTracked w
      → id ≡ w.next
      → wakes e events ≡ true
      → Waits (notifications id w.log) (add_interest kernel me events w).1
  unfolding add_interest
  new-Waits kernel me events w t same apt = record {
    tracked = add_interest-IsTracked kernel me events w t;
    waiting = ground (arith, t id, same);
    made = ground (arith, same);
    apt = ground (
      arith,
      total-snoc w.interests (events, w.next),
      total-occurrences w.interests,
      t id,
      same,
      apt,
    );
    count = ground (arith, same);
  }
