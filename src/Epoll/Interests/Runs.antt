-- ===== src/Epoll/Interests/Runs.antt =====
-- Any sequence of calls on one registration: tasks add interests, the
-- kernel reports events, and threads that were given a report call `handle_event`. The mutex makes
-- each call one step. A report and the call for it are two steps, with any others between.
use complete_io.Base.{
  ℕ, suc, Bool, true, false, inr, ◌≡◌, refl, ap, ◌∙◌, Option, none, some, List, [], ◌∷◌, length,
  IoError, Result, ok, err, panic, arith,
}
use complete_io.Epoll.Mask.{EventMask}
use complete_io.Epoll.Interests.{fresh, World, Call, add_interest, handle_event, report, modify}
use complete_io.Epoll.Interests.Wakeup.{rearm_result, handle_event-Handled}
use complete_io.Epoll.Interests.Armed.{IsWatched, add_interest-IsWatched, Handled-IsWatched}
use complete_io.Epoll.Interests.Tracked.{IsTracked, add_interest-IsTracked, Handled-IsTracked}

pub data Op : Type 0 where
  adds : (me : ℕ) → EventMask → Op
  reports : EventMask → Op
  handles : EventMask → Op

-- Whether `handle_event` has run since the last report.
abbrev pub settles : Op → Bool → Bool
settles (adds _ _) b = b
settles (reports _) b = false
settles (handles _) b = true

abbrev pub settled : Bool → List Op → Bool
settled b [] = b
settled b (op ∷ ops) = settled (settles op b) ops

abbrev pub added : Result ℕ × World → Option World
added (ok _, w) = some w
added _ = none

abbrev pub handled : Option (Result (Unit {0}) × World) → Option World
handled (some (ok _, w)) = some w
handled _ = none

pub added-some : (r : Result ℕ × World) {w : World} → added r ≡ some w → r.1 ≡ w
added-some (ok _, v) e = cc
added-some (err _, v) e = cc
added-some (panic, v) e = cc

pub handled-some :
    (r : Result (Unit {0})) (v : World) {w : World} → handled (some (r, v)) ≡ some w → v ≡ w
handled-some (ok _) v e = cc
handled-some (err _) v e = cc
handled-some panic v e = cc

module _ (kernel : ℕ → Option IoError) where
  -- `none` when the call fails or panics.
  unfoldable pub step : Op → World → Option World
  step (adds me events) w = added (add_interest kernel me events w)
  step (reports events) w = some (report events w)
  step (handles events) w = handled (handle_event kernel events w)

  abbrev pub run_rest : (World → Option World) → Option World → Option World
  run_rest f none = none
  run_rest f (some w) = f w

  unfoldable pub run : List Op → World → Option World
  unfolding step
  run [] w = some w
  run (op ∷ ops) w = run_rest (run ops) (step op w)

  pub record IsSound (w : World) : Type 0 where
    pub is_watched : IsWatched w
    pub is_tracked : IsTracked w

  -- What holds on the way, where `b` says that `handle_event` has run since the last report.
  record Sound (b : Bool) (w : World) : Type 0 where
    is_watched : b ≡ true → IsWatched w
    is_tracked : IsTracked w

  module _ (reliable : (n : ℕ) → kernel n ≡ none) where
    add-ok :
        (me : ℕ) (events : EventMask) (w : World) → (add_interest kernel me events w).0 ≡ ok w.next
    unfolding add_interest modify
    add-ok me events w = ground (arith, reliable (suc (length w.log)))

    pub rearm-ok :
        (kept : List (EventMask × ℕ)) (log : List Call) → rearm_result kernel kept log ≡ ok tt
    rearm-ok [] log = refl
    rearm-ok (x ∷ xs) log = rw (reliable (length log), rearm_result)

    add-step :
        (me : ℕ) (events : EventMask) (w : World)
        → added (add_interest kernel me events w) ≡ some (add_interest kernel me events w).1
    add-step me events w = ground (arith, add-ok me events w)

    -- With a kernel that accepts every request, each call succeeds and keeps the registration sound.
    step_total :
        (op : Op) (b : Bool) (w : World)
        → Sound b w
        → (w' : World) × (step op w ≡ some w') × Sound (settles op b) w'
    unfolding step
    step_total (adds me events) b w s = (
      (add_interest kernel me events w).1,
      add-step me events w,
      record {
        is_watched = λ t.
            add_interest-IsWatched kernel me events w w.next (s.is_watched t) (add-ok me events w);
        is_tracked = add_interest-IsTracked kernel me events w s.is_tracked;
      },
    )
    step_total (reports events) b w s =
        (report events w, refl, record { is_watched = λ t. cc t; is_tracked = s.is_tracked })
    step_total (handles events) b w s =
        let (r, w', out, h) = handle_event-Handled kernel events w in
        let fine : r ≡ ok tt = h.result ∙ rearm-ok w'.interests _ in
        (
          w',
          rw (out, fine),
          record {
            is_watched = λ t. Handled-IsWatched kernel h fine;
            is_tracked = Handled-IsTracked h s.is_tracked;
          },
        )

    run_total :
        (ops : List Op) (b : Bool) (w : World)
        → Sound b w
        → (w' : World) × (run ops w ≡ some w') × Sound (settled b ops) w'
    unfolding run
    run_total [] b w s = (w, refl, s)
    run_total (op ∷ ops) b w s =
        let (v, out, t) = step_total op b w s in
        let (w', rest, u) = run_total ops (settles op b) v t in
        (w', ap (run_rest (run ops)) out ∙ rest, u)

    -- If the kernel refuses no epoll_ctl call, any calls of `add_interest` and `handle_event` on a
    -- new registration, and any reports of the kernel between them, succeed. If `handle_event` has
    -- run since the last report, then either the waiting interests ask for nothing or the
    -- kernel is armed for exactly the union of their masks, and each interest that was made waits in
    -- the vector once or has fired.
    pub run-IsSound :
        (ops : List Op)
        → settled true ops ≡ true
        → (w : World) × (run ops fresh ≡ some w) × IsSound w
    run-IsSound ops t =
        let (w, out, s) =
          run_total ops true fresh
            (record { is_watched = λ _. inr refl; is_tracked = λ i. ground arith }) in
        (w, out, record { is_watched = s.is_watched t; is_tracked = s.is_tracked })
