-- ===== src/Epoll/Interests/Fired.antt =====
-- An interest that has fired is over: whatever is called afterwards, its task is never notified again.
use complete_io.Base.{
  ℕ, ◌+◌, ◌≡◌, refl, sym, ap, ◌∙◌, Bool, true, false, ◌||◌, Option, some, List, [], ◌∷◌, ◌++◌, map,
  occurrences, IoError, Result, if◌then◌else◌, ◌==◌, subst, arith, Option-cases, inl, inr,
}
use complete_io.Epoll.Mask.{EventMask}
use complete_io.Epoll.Interests.{
  World, Call, ctl_mod, delivered, registered, notified, attempted, add_interest, report,
}
use complete_io.Epoll.Interests.Wakeup.{Handled, rearmed, handle_event-Handled}
use complete_io.Epoll.Interests.Tracked.{
  IsTracked, add_interest-IsTracked, Handled-IsTracked, woken-occurrences,
}
use complete_io.Epoll.Interests.Runs.{
  Op, adds, handles, reports, step, run, run_rest, added-some, handled, handled-some,
}

-- How often the task of an interest has been notified.
abbrev pub notifications : ℕ → List Call → ℕ
notifications i [] = 0
notifications i (notified j ∷ log) = (if j == i then 1 else 0) + notifications i log
notifications i (ctl_mod _ _ _ ∷ log) = notifications i log
notifications i (delivered _ ∷ log) = notifications i log
notifications i (registered _ _ ∷ log) = notifications i log
notifications i (attempted ∷ log) = notifications i log

pub notifications-map :
    (i : ℕ) (js : List ℕ) (log : List Call)
    → notifications i (map notified js ++ log) ≡ occurrences i js + notifications i log
notifications-map i [] log = omega arith
notifications-map i (j ∷ js) log = omega (arith, notifications-map i js log)

pub notifications-rearmed :
    (kernel : ℕ → Option IoError) (i : ℕ) (kept : List (EventMask × ℕ)) (log : List Call)
    → notifications i (rearmed kernel kept log) ≡ notifications i log
notifications-rearmed kernel i [] log = refl
notifications-rearmed kernel i (x ∷ xs) log = refl

-- `n` notifications have gone to the interest `i`, which has fired.
pub record Over (i n : ℕ) (w : World) : Type 0 where
  pub tracked : IsTracked w
  pub fired : w.fired i ≡ true
  pub count : notifications i w.log ≡ n

or_true : (b : Bool) → (b || true) ≡ true
or_true true = refl
or_true false = refl

module _ (kernel : ℕ → Option IoError) {i n : ℕ} where
  Handled-Over :
      {events : EventMask} {w w' : World} {r : Result (Unit {0})}
      → Handled kernel events w r w'
      → Over i n w
      → Over i n w'
  Handled-Over {events} {w} {w'} h o = record {
    tracked = Handled-IsTracked h o.tracked;
    fired = h.fired i ∙ rw o.fired (or_true _);
    count =
        ap (notifications i) h.log
        ∙ notifications-rearmed kernel i w'.interests (map notified h.woken ++ w.log)
        ∙ notifications-map i h.woken w.log
        ∙ ground (arith, o.count, o.fired, o.tracked i, woken-occurrences h i);
  }

  add-Over :
      (me : ℕ) (events : EventMask) (w : World)
      → Over i n w
      → Over i n (add_interest kernel me events w).1
  unfolding add_interest
  add-Over me events w o = record {
    tracked = add_interest-IsTracked kernel me events w o.tracked;
    fired = ground (arith, o.tracked i);
    count = ground arith;
  }

  step-Over : (op : Op) (w w' : World) → Over i n w → step kernel op w ≡ some w' → Over i n w'
  unfolding step
  step-Over (adds me events) w w' o e =
      subst (Over i n) (added-some (add_interest kernel me events w) e) (add-Over me events w o)
  step-Over (reports events) w w' o e =
      let same : report events w ≡ w' = cc in
      subst (Over i n) same (record { tracked = o.tracked; fired = o.fired; count = o.count })
  step-Over (handles events) w w' o e =
      let (r, v, out, h) = handle_event-Handled kernel events w in
      subst (Over i n) (handled-some r v (ap handled (sym out) ∙ e)) (Handled-Over h o)

  pub run-Over :
      (ops : List Op) (w w' : World) → Over i n w → run kernel ops w ≡ some w' → Over i n w'
  unfolding run
  run-Over [] w w' o e = subst (Over i n) (cc e) o
  run-Over (op ∷ ops) w w' o e = elim (Option-cases (step kernel op w)) [
    | inl stuck ↦ cc (sym (ap (run_rest kernel (run kernel ops)) stuck) ∙ e)
    | inr (v, moved) ↦
        run-Over ops v w' (step-Over op w v o moved)
          (sym (ap (run_rest kernel (run kernel ops)) moved) ∙ e)
  ]
