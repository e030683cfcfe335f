-- ===== src/Epoll/Interests.antt =====
-- src/epoll/mod.rs: `FuturesRegistration`, the interests of the futures that wait on one file
-- descriptor. A `World` is one registration with the cells that its futures share: `interests` is
-- the vector behind the mutex; the cell `_FutureInterest` is named by the number of the
-- `add_interest` call that made it, and `fired` holds its flag. `log` is what went out to the
-- kernel and to the tasks, the newest first: the tasks' wakers (`futures::task::AtomicTask`) and
-- the kernel are not modelled, only the calls made to them. `kernel n` is the error, if there is
-- one, of the system call that is made when `log` has `n` entries.
pub mod Loop
pub mod Wakeup
pub mod Armed
pub mod Tracked
pub mod Mixed
pub mod Runs
pub mod Fired
pub mod Served
use complete_io.Base.{
  ℕ, zero, suc, Bool, true, false, ◌||◌, not, Option, none, some, List, [], ◌∷◌, ◌++◌, length,
  get_elem?, swap_remove, if◌then◌else◌, ◌==◌, IoError, Result, ok, err, panic, Async, ready,
  not_ready,
}
use complete_io.Epoll.Mask.{
  EventMask, EventMode, empty, edge_one_shot, hup_or_error, union, contains, intersects,
}

pub data Call : Type 0 where
  ctl_mod : EventMask → EventMode → Option IoError → Call  -- `epoll_ctl(EPOLL_CTL_MOD)`, its error
  delivered : EventMask → Call  -- the kernel reports events, and the one-shot registration is spent
  registered : (interest task : ℕ) → Call  -- `AtomicTask::register`
  notified : (interest : ℕ) → Call  -- `AtomicTask::notify`
  attempted : Call  -- the descriptor's own system call: `accept`, `connect`, `recv`, `send`, …

pub record World : Type 0 where
  pub interests : List (EventMask × ℕ)
  pub fired : ℕ → Bool
  pub next : ℕ
  pub log : List Call

-- A new registration: no interest yet.
abbrev pub fresh : World
fresh = record { interests = []; fired = λ _. false; next = 0; log = [] }

abbrev pub update : (ℕ → Bool) → ℕ → Bool → ℕ → Bool
update f i b j = if i == j then b else f j

-- `interests.iter().fold(mask, |mask, (m, _)| mask | m)`
abbrev pub fold_masks : EventMask → List (EventMask × ℕ) → EventMask
fold_masks mask [] = mask
fold_masks mask ((m, _) ∷ xs) = fold_masks (union mask m) xs

abbrev pub masks : List (EventMask × ℕ) → EventMask
masks = fold_masks empty

abbrev pub reply : Option IoError → Result (Unit {0})
reply none = ok tt
reply (some e) = err e

-- `FuturesRegistration::new`, with the error of `epoll_ctl(EPOLL_CTL_ADD)`, if there is one. The
-- descriptor is added with the empty mask.
unfoldable pub new_registration : Option IoError → Result World
new_registration none = ok fresh
new_registration (some e) = err e

-- `FutureInterest::register`, by the task `me`.
unfoldable pub register : ℕ → ℕ → World → World
register me id w = record w { log = registered id me ∷ w.log }

-- `FutureInterest::poll`
unfoldable pub interest_poll : ℕ → ℕ → World → Async (Unit {0}) × World
unfolding register
interest_poll me id w = if w.fired id then (ready tt, w) else (not_ready, register me id w)

-- The test of `handle_event`.
unfoldable pub wakes : EventMask → EventMask → Bool
wakes events mask = contains mask events || intersects events hup_or_error

-- `fired.store(true)`, `task.notify()`, `interests.swap_remove(i)`
unfoldable pub fire : ℕ → ℕ → World → World
fire i id w = record w {
  fired = update w.fired id true;
  log = notified id ∷ w.log;
  interests = swap_remove w.interests i;
}

abbrev pub get_or_insert : Option EventMask → EventMask
get_or_insert none = empty
get_or_insert (some m) = m

-- The loop of `handle_event`, with its index and `remaining_interest_mask`. `none` means that the
-- fuel ran out.
unfoldable pub loop :
    ℕ → ℕ → Option EventMask → EventMask → World → Option (Option EventMask × World)
loop zero i remaining events w = none
loop (suc fuel) i remaining events w = elim (get_elem? w.interests i) [
  | none ↦ some (remaining, w)
  | some (mask, id) ↦ elim (wakes events mask) [
    | true ↦ loop fuel i remaining events (fire i id w)
    | false ↦ loop fuel (suc i) (some (union (get_or_insert remaining) mask)) events w
  ]
]

-- `Arc::new(_FutureInterest { .. })`, `inner.task.register()`, `interests.push(..)`
abbrev pub push : ℕ → EventMask → World → World
push me events w = record w {
  interests = w.interests ++ (events, w.next) ∷ [];
  fired = update w.fired w.next false;
  next = suc w.next;
  log = registered w.next me ∷ w.log;
}

-- The kernel reports `events` in some thread's `epoll_wait`, which spends the one-shot registration.
-- That thread calls `handle_event` later; other calls can come between.
abbrev pub report : EventMask → World → World
report events w = record w { log = delivered events ∷ w.log }

module _ (kernel : ℕ → Option IoError) where
  -- `Registration::modify`
  unfoldable pub modify : EventMask → EventMode → World → Result (Unit {0}) × World
  modify mask mode w =
      let errno = kernel (length w.log) in
      (reply errno, record w { log = ctl_mod mask mode errno ∷ w.log })

  abbrev interest_result : ℕ → Result (Unit {0}) × World → Result ℕ × World
  interest_result id (ok _, w) = (ok id, w)
  interest_result id (err e, w) = (err e, w)
  interest_result id (panic, w) = (panic, w)

  -- `FuturesRegistration::add_interest`, called in the task `me`. The new interest is in the vector
  -- before the kernel is asked, and stays there if the kernel refuses.
  unfoldable pub add_interest : ℕ → EventMask → World → Result ℕ × World
  unfolding modify
  add_interest me events w =
      let old = masks w.interests in
      if not (contains old events)
      then interest_result w.next (modify (union old events) edge_one_shot (push me events w))
      else (ok w.next, push me events w)

  -- `expect`
  abbrev expect : Result (Unit {0}) × World → Result (Unit {0}) × World
  expect (err _, w) = (panic, w)
  expect r = r

  -- The end of `handle_event`: the mask that remains is armed again.
  unfoldable pub rearm : Option EventMask × World → Result (Unit {0}) × World
  unfolding modify
  rearm (none, w) = (ok tt, w)
  rearm (some mask, w) = expect (modify mask edge_one_shot w)

  -- `FuturesRegistrationHandler::handle_event`
  unfoldable pub handle_event : EventMask → World → Option (Result (Unit {0}) × World)
  unfolding loop rearm
  handle_event events w = elim (loop (suc (length w.interests)) 0 none events w) [
    | none ↦ none
    | some r ↦ some (rearm r)
  ]
