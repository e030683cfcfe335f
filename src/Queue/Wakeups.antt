-- ===== src/Queue/Wakeups.antt =====
-- Which notifications reach the thread that drives a future.
use complete_io.Base.{
  ℕ, suc, ◌+◌, ◌<◌, ◌≤◌, ◌≡◌, refl, sym, ap, ◌∙◌, subst, inl, inr, ◌⊎◌, Bool, true, false, some,
  List, [], ◌∷◌, if◌then◌else◌, arith, Option-cases,
}
use complete_io.Queue.{
  Pc, checking, polling, entering, published, blocked, leaving, failing, Driver, Event, advances,
  notifies_now, returns, start, notify, advance, come_back, step, run, run_rest,
}

abbrev flag : Bool → ℕ
flag b = if b then 1 else 0

abbrev pub listens : Pc → Bool
listens published = true
listens blocked = true
listens leaving = true
listens failing = true
listens _ = false

pub record Inv (self : ℕ) (d : Driver) : Type 0 where
  pub told : d.thread_id ≡ (if listens d.pc then self else 0)
  pub due : d.polls + flag d.notified ≤ suc d.notifies
  pub sparing : d.signals ≤ d.notifies

start-Inv : (self : ℕ) → Inv self start
unfolding start
start-Inv self = record { told = refl; due = omega arith; sparing = omega arith }

notify-Inv : (self : ℕ) (d : Driver) → Inv self d → Inv self (notify d)
unfolding notify
notify-Inv self d v = ground arith

advance-Inv :
    (self : ℕ) (ready : Bool) (p : Pc) (d u : Driver)
    → d.pc ≡ p
    → Inv self d
    → advance self ready p d ≡ some u
    → Inv self u
unfolding advance
advance-Inv self ready checking d u e v q = ground arith
advance-Inv self ready p d u e v q = ground arith

come_back-Inv :
    (self : ℕ) (fine : Bool) (p : Pc) (d u : Driver)
    → d.pc ≡ p
    → Inv self d
    → come_back self fine p d ≡ some u
    → Inv self u
unfolding come_back
come_back-Inv self true blocked d u e v q = ground arith
come_back-Inv self fine p d u e v q = ground arith

step-Inv : (self : ℕ) (e : Event) (d u : Driver) → Inv self d → step self e d ≡ some u → Inv self u
unfolding step
step-Inv self (advances ready) d u v q = advance-Inv self ready d.pc d u refl v q
step-Inv self notifies_now d u v q =
    let same : notify d ≡ u = cc in subst (Inv self) same (notify-Inv self d v)
step-Inv self (returns fine) d u v q = come_back-Inv self fine d.pc d u refl v q

run-Inv :
    (self : ℕ) (es : List Event) (d u : Driver) → Inv self d → run self es d ≡ some u → Inv self u
unfolding run
run-Inv self [] d u v q = let same : d ≡ u = cc in subst (Inv self) same v
run-Inv self (e ∷ es) d u v q = elim (Option-cases (step self e d)) [
  | inl stuck ↦ cc (sym (ap (run_rest self (run self es)) stuck) ∙ q)
  | inr (x, moved) ↦
      run-Inv self es x u (step-Inv self e d x v moved)
        (sym (ap (run_rest self (run self es)) moved) ∙ q)
]

-- However a driven future is notified: it is polled once for the start and at most once for each
-- notification, and no notification causes more than one signal.
run_polls_bounded :
    (self : ℕ) (es : List Event) (d : Driver)
    → run self es start ≡ some d
    → (d.polls ≤ suc d.notifies) × (d.signals ≤ d.notifies)
run_polls_bounded self es d q =
    let v = run-Inv self es start d (start-Inv self) q in (omega (arith, v.due), v.sparing)

run_cons :
    (self : ℕ) (e : Event) (es : List Event) (d x : Driver)
    → step self e d ≡ some x
    → run self (e ∷ es) d ≡ run self es x
unfolding run
run_cons self e es d x q = ap (run_rest self (run self es)) q

abbrev notice : Driver → Driver
notice d = record d { notified = true; notifies = suc d.notifies; signals = suc d.signals }

heard_signal :
    (self : ℕ) (d : Driver)
    → 0 < self
    → d.notified ≡ false
    → d.thread_id ≡ self
    → step self notifies_now d ≡ some (notice d)
unfolding step
heard_signal self d real n heard = ground arith

comes_back :
    (self : ℕ) (d : Driver)
    → d.pc ≡ blocked
    → step self (returns true) d ≡ some (record d { pc = leaving })
unfolding step
comes_back self d b = ground arith

-- In every state that `run` reaches: a first notification that comes while the thread waits in
-- `epoll_pwait` sends one signal, the thread to which signals go is the one that waits, and once the
-- wait returns without an error this thread polls the future again by its own steps.
pub waiting_is_woken :
    (self : ℕ) (es : List Event) (d : Driver)
    → 0 < self
    → run self es start ≡ some d
    → d.pc ≡ blocked
    → d.notified ≡ false
    → (u : Driver) × (run self
          (notifies_now ∷ returns true ∷ advances false ∷ advances false ∷ [])
          d
        ≡ some u)
      × (d.thread_id ≡ self)
      × (u.signals ≡ suc d.signals)
      × (u.pc ≡ polling)
      × (u.polls ≡ suc d.polls)
unfolding run advance come_back notify
waiting_is_woken self es d real q b n =
    let v = run-Inv self es start d (start-Inv self) q in
    let heard : d.thread_id ≡ self = v.told ∙ ap (λ p. if listens p then self else 0) b in
    (
      record d {
        pc = polling;
        notified = false;
        thread_id = 0;
        signals = suc d.signals;
        notifies = suc d.notifies;
        polls = suc d.polls;
      },
      run_cons self notifies_now woken d (notice d) (heard_signal self d real n heard)
          ∙ run_cons self (returns true) again (notice d) (record (notice d) { pc = leaving })
              (comes_back self (notice d) b),
      heard,
      refl,
      refl,
      refl,
    )
  where
    again : List Event
    again = advances false ∷ advances false ∷ []

    woken : List Event
    woken = returns true ∷ again

-- The thread is on its way into a wait, or in it, and a notification is outstanding.
pub record Deaf (n s : ℕ) (d : Driver) : Type 0 where
  pub way : (d.pc ≡ entering) ⊎ (d.pc ≡ published) ⊎ (d.pc ≡ blocked)
  pub pending : d.notified ≡ true
  pub polled : d.polls ≡ n
  pub signalled : d.signals ≡ s

abbrev pub NoReturn : List Event → Type 0
NoReturn [] = Unit {0}
NoReturn (returns _ ∷ es) = ⊥
NoReturn (_ ∷ es) = NoReturn es

NoReturn-head : (e : Event) (es : List Event) → NoReturn (e ∷ es) → NoReturn (e ∷ [])
NoReturn-head (returns _) es h = h
NoReturn-head (advances _) es h = tt
NoReturn-head notifies_now es h = tt

NoReturn-tail : (e : Event) (es : List Event) → NoReturn (e ∷ es) → NoReturn es
NoReturn-tail (returns _) es h = absurd h
NoReturn-tail (advances _) es h = h
NoReturn-tail notifies_now es h = h

advance-Deaf :
    {n s : ℕ} (self : ℕ) (ready : Bool) (p : Pc) (d u : Driver)
    → d.pc ≡ p
    → Deaf n s d
    → advance self ready p d ≡ some u
    → Deaf n s u
unfolding advance
advance-Deaf self ready checking d u e v q = ground arith
advance-Deaf self ready p d u e v q = ground arith

step-Deaf :
    {n s : ℕ} (self : ℕ) (e : Event) (d u : Driver)
    → NoReturn (e ∷ [])
    → Deaf n s d
    → step self e d ≡ some u
    → Deaf n s u
unfolding step advance notify
step-Deaf self (advances ready) d u h v q = advance-Deaf self ready d.pc d u refl v q
step-Deaf self notifies_now d u h v q = ground arith
step-Deaf self (returns fine) d u h v q = absurd h

run-Deaf :
    {n s : ℕ} (self : ℕ) (es : List Event) (d u : Driver)
    → NoReturn es
    → Deaf n s d
    → run self es d ≡ some u
    → Deaf n s u
unfolding run
run-Deaf {n} {s} self [] d u h v q = let same : d ≡ u = cc in subst (Deaf n s) same v
run-Deaf self (e ∷ es) d u h v q = elim (Option-cases (step self e d)) [
  | inl stuck ↦ cc (sym (ap (run_rest self (run self es)) stuck) ∙ q)
  | inr (x, moved) ↦
      run-Deaf self es x u (NoReturn-tail e es h)
        (step-Deaf self e d x (NoReturn-head e es h) v moved)
        (sym (ap (run_rest self (run self es)) moved) ∙ q)
]

-- A notification that comes too early is lost: when it is outstanding as the thread goes into a wait,
-- which is so after the future has notified itself during its own poll, then no further notification
-- sends a signal and the future is not polled, however long the wait lasts.
pub early_notification_lost :
    (self : ℕ) (es : List Event) (d u : Driver)
    → (d.pc ≡ entering) ⊎ (d.pc ≡ published) ⊎ (d.pc ≡ blocked)
    → d.notified ≡ true
    → NoReturn es
    → run self es d ≡ some u
    → (u.signals ≡ d.signals) × (u.polls ≡ d.polls) × (u.notified ≡ true)
early_notification_lost self es d u w n h q =
    let v =
      run-Deaf self es d u h (record { way = w; pending = n; polled = refl; signalled = refl }) q in
    (v.signalled, v.polled, v.pending)
