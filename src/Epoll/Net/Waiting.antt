-- ===== src/Epoll/Net/Waiting.antt =====
-- What a `poll` of a socket's future leaves behind, whichever future it is.
use complete_io.Base.{
  ℕ, suc, ◌<◌, ◌≡◌, ◌≢◌, refl, Bool, true, false, Option, none, some, List, [], ◌∷◌, length,
  IoError, Result, ok, err, panic, ready, not_ready, if◌then◌else◌, ◌==◌, arith, Bool-cases,
  Option-cases, inl, inr,
}
use complete_io.Epoll.Mask.{EventMask, contains}
use complete_io.Epoll.Interests.{
  World, Call, ctl_mod, delivered, registered, notified, attempted, add_interest, masks,
}
use complete_io.Epoll.Net.{Polled, still_waiting, attempt, blocked, suspend, as_some}

-- The task that is notified when the interest fires: the last one that registered.
abbrev pub last_task : ℕ → List Call → Option ℕ
last_task i [] = none
last_task i (registered j t ∷ log) = if j == i then some t else last_task i log
last_task i (ctl_mod _ _ _ ∷ log) = last_task i log
last_task i (delivered _ ∷ log) = last_task i log
last_task i (notified _ ∷ log) = last_task i log
last_task i (attempted ∷ log) = last_task i log

-- The interest of a future, if it has one, is one of this registration.
abbrev pub IsMade : Option ℕ → World → Type 0
IsMade none w = Unit {0}
IsMade (some id) w = id < w.next

-- A poll either suspends the future, with all that it holds and an interest for which the polling
-- task was the last to register, or takes the future's state for good.
pub data Outcome {S A : Type 0} (pending : Option ℕ → S) (gone : S) (me : ℕ) (p : Polled S A)
    : Type 0 where
  suspended :
      (id : ℕ)
      → p.result ≡ ok not_ready
      → p.state ≡ pending (some id)
      → id < p.world.next
      → last_task id p.world.log ≡ some me
      → Outcome pending gone me p
  finished : p.result ≢ ok not_ready → p.state ≡ gone → Outcome pending gone me p

-- Without an error, the task `me` is registered for the new interest.
abbrev Registers : ℕ → Result ℕ × World → Type 0
Registers me (ok id, w) = (id < w.next) × (last_task id w.log ≡ some me)
Registers me _ = Unit {0}

add_interest-Registers :
    (kernel : ℕ → Option IoError) (me : ℕ) (events : EventMask) (w : World)
    → Registers me (add_interest kernel me events w)
unfolding add_interest
add_interest-Registers kernel me events w =
    elim (Bool-cases (contains (masks w.interests) events)) [
      | inl covered ↦ rw covered (ground arith)
      | inr more ↦ elim (Option-cases (kernel (suc (length w.log)))) [
        | inl done ↦ rw (more, done) (ground arith)
        | inr (e, refused) ↦ rw (more, refused) tt
      ]
    ]

module _ {S A : Type 0} {pending : Option ℕ → S} {gone : S} {me : ℕ} where
  suspend-Outcome :
      (kernel : ℕ → Option IoError) (events : EventMask) (r : Result ℕ × World)
      → Registers me r
      → Outcome {A = A} pending gone me
          (suspend kernel me events pending gone (as_some kernel me events r))
  suspend-Outcome kernel events (ok id, w) h = suspended id refl refl h.0 h.1
  suspend-Outcome kernel events (err e, w) h = finished (λ q. cc) refl
  suspend-Outcome kernel events (panic, w) h = finished (λ q. cc) refl

  blocked-Outcome :
      (kernel : ℕ → Option IoError) (events : EventMask) (interest : Option ℕ) (w : World)
      → IsMade interest w
      → Outcome {A = A} pending gone me (blocked kernel me events pending gone interest w)
  unfolding blocked
  blocked-Outcome kernel events (some id) w m = suspended id refl refl m (ground arith)
  blocked-Outcome kernel events none w m =
      suspend-Outcome kernel events (add_interest kernel me events w)
        (add_interest-Registers kernel me events w)

  -- The frame of each `poll`: `rest` is what comes after the system call.
  pub polled-Outcome :
      (interest : Option ℕ) (w : World) (rest : World → Polled S A)
      → IsMade interest w
      → ((v : World) → IsMade interest v → Outcome pending gone me (rest v))
      → Outcome pending gone me (
          let (waiting, v) = still_waiting me interest w in
          if waiting
          then record { state = pending interest; result = ok not_ready; world = v }
          else rest (attempt v))
  unfolding still_waiting
  polled-Outcome none w rest m h = h (attempt w) tt
  polled-Outcome (some id) w rest m h = elim (Bool-cases (w.fired id)) [
    | inl f ↦ rw f (h (attempt w) m)
    | inr f ↦ rw f (suspended id refl refl m (ground arith))
  ]

  -- The frame of each branch for an error of the system call, with its test for one that blocks.
  pub refused-Outcome :
      (kernel : ℕ → Option IoError) (events : EventMask) (e : IoError) (blocks : Bool)
      (interest : Option ℕ) (w : World)
      → IsMade interest w
      → Outcome {A = A} pending gone me (
          if blocks
          then blocked kernel me events pending gone interest w
          else record { state = gone; result = err e; world = w })
  refused-Outcome kernel events e true interest w m = blocked-Outcome kernel events interest w m
  refused-Outcome kernel events e false interest w m = finished (λ q. cc) refl

  pub done-Outcome :
      (a : A) (w : World)
      → Outcome pending gone me (record { state = gone; result = ok (ready a); world = w })
  done-Outcome a w = finished (λ q. cc) refl

  pub error-Outcome :
      (e : IoError) (w : World)
      → Outcome {A = A} pending gone me (record { state = gone; result = err e; world = w })
  error-Outcome e w = finished (λ q. cc) refl
