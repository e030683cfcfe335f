-- ===== src/Epoll/Net.antt =====
-- src/epoll/net.rs: what the futures of a socket share. A future is a state machine; `Polled` is
-- what a call of its `poll` leaves: the state in `self`, the value that comes back, and the
-- registration of the socket. The outcome of the system call that a `poll` may make is its
-- argument.
pub mod Waiting
pub mod Outcomes
pub mod Polls
pub mod Accept
pub mod Connect
pub mod TcpRead
pub mod TcpWrite
pub mod RecvFrom
pub mod SendTo
pub mod Sleep
pub mod Transfer
pub mod Resumed
use complete_io.Base.{
  ℕ, suc, Bool, true, false, Option, none, some, List, ◌∷◌, IoError, Result, ok, err, panic, Async,
  ready, not_ready, ◌≡◌, refl,
}
use complete_io.Epoll.Mask.{EventMask}
use complete_io.Epoll.Interests.{
  World, fresh, attempted, register, interest_poll, add_interest, new_registration,
}

-- What a system call comes back with.
pub data Reply {ℓ} (A : Type ℓ) : Type ℓ where
  got : A → Reply A
  failed : IoError → Reply A

pub record Polled (S A : Type 0) : Type 0 where
  pub state : S
  pub result : Result (Async A)
  pub world : World

abbrev waits : Async (Unit {0}) × World → Bool × World
waits (ready _, w) = (false, w)
waits (not_ready, w) = (true, w)

-- `if let Some(Async::NotReady) = interest.as_ref().map(|x| x.poll())`
unfoldable pub still_waiting : ℕ → Option ℕ → World → Bool × World
unfolding interest_poll
still_waiting me none w = (false, w)
still_waiting me (some id) w = waits (interest_poll me id w)

-- The system call is made.
abbrev pub attempt : World → World
attempt w = record w { log = attempted ∷ w.log }

-- `from_stream`, `from_listener` and `from_socket`: register the descriptor, then make it
-- non-blocking.
unfoldable pub from_socket : Option IoError → Reply (Unit {0}) → Result World
unfolding new_registration
from_socket (some e) nonblocking = err e
from_socket none (got _) = new_registration none
from_socket none (failed e) = err e

-- `TcpListener::bind` and `UdpSocket::bind` of src/net.rs: what `bind` of the standard library comes
-- back with, then `from_listener` or `from_socket`.
unfoldable pub bind : Reply (Unit {0}) → Option IoError → Reply (Unit {0}) → Result World
unfolding from_socket
bind (failed e) ctl_add nonblocking = err e
bind (got _) ctl_add nonblocking = from_socket ctl_add nonblocking

-- A socket is bound only if each call succeeds, and its registration is then new.
bind_lem :
    (bound : Reply (Unit {0})) (ctl_add : Option IoError) (nonblocking : Reply (Unit {0}))
    (w : World)
    → bind bound ctl_add nonblocking ≡ ok w
    → (bound ≡ got tt) × (ctl_add ≡ none) × (nonblocking ≡ got tt) × (w ≡ fresh)
unfolding bind new_registration
bind_lem (failed e) ctl_add nonblocking w q = cc
bind_lem (got _) (some e) nonblocking w q = cc
bind_lem (got _) none (failed e) w q = cc
bind_lem (got _) none (got _) w q = (refl, refl, refl, cc)

module _ (kernel : ℕ → Option IoError) (me : ℕ) (events : EventMask) where
  abbrev as_some : Result ℕ × World → Result (Option ℕ) × World
  as_some (ok id, w) = (ok (some id), w)
  as_some (err e, w) = (err e, w)
  as_some (panic, w) = (panic, w)

  -- `interest.register()`, or `interest = Some(registration.add_interest(events)?)`
  unfoldable pub wait_for : Option ℕ → World → Result (Option ℕ) × World
  unfolding register add_interest
  wait_for (some id) w = (ok (some id), register me id w)
  wait_for none w = as_some (add_interest kernel me events w)

  abbrev suspend : {S A : Type 0} → (Option ℕ → S) → S → Result (Option ℕ) × World → Polled S A
  suspend pending gone (ok interest, w) = record {
    state = pending interest;
    result = ok not_ready;
    world = w;
  }
  suspend pending gone (err e, w) = record { state = gone; result = err e; world = w }
  suspend pending gone (panic, w) = record { state = gone; result = panic; world = w }

  -- The branch of each `poll` whose system call would block: the state goes back into `self`.
  unfoldable pub blocked : {S A : Type 0} → (Option ℕ → S) → S → Option ℕ → World → Polled S A
  unfolding wait_for
  blocked pending gone interest w = suspend pending gone (wait_for interest w)
