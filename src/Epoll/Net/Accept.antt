-- ===== src/Epoll/Net/Accept.antt =====
-- src/epoll/net.rs: `TcpListener::accept` and the future `Accept`. The value is the accepted stream
-- with its new registration, and the peer's address.
use complete_io.Base.{
  ℕ, Option, none, if◌then◌else◌, IoError, Result, ok, err, panic, Async, ready, not_ready,
  would_block,
}
use complete_io.Epoll.Mask.{read_only}
use complete_io.Epoll.Interests.{World}
use complete_io.Epoll.Net.{Reply, got, failed, Polled, still_waiting, attempt, from_socket, blocked}

pub data AcceptState : Type 0 where
  pending : (listener : ℕ) → Option ℕ → AcceptState
  taken : AcceptState  -- `AcceptState::None`

-- `TcpListener::accept`
abbrev pub accept : ℕ → AcceptState
accept listener = pending listener none

-- The outcome of `accept`, and those of the calls that register the new stream.
pub record Accepted : Type 0 where
  pub accepted : Reply (ℕ × ℕ)  -- the stream and the address
  pub ctl_add : Option IoError
  pub set_nonblocking : Reply (Unit {0})

abbrev pub as_ready : ℕ → ℕ → Result World → Result (Async (ℕ × World × ℕ))
as_ready stream addr (ok w) = ok (ready (stream, w, addr))
as_ready stream addr (err e) = err e
as_ready stream addr panic = panic

module _ (kernel : ℕ → Option IoError) (me : ℕ) where
  pub after_accept :
      Accepted → Reply (ℕ × ℕ) → ℕ → Option ℕ → World → Polled AcceptState (ℕ × World × ℕ)
  after_accept calls (got (stream, addr)) listener interest w = record {
    state = taken;
    result = as_ready stream addr (from_socket calls.ctl_add calls.set_nonblocking);
    world = w;
  }
  after_accept calls (failed e) listener interest w =
      if would_block e
      then blocked kernel me read_only (pending listener) taken interest w
      else record { state = taken; result = err e; world = w }

  -- `Accept::poll`
  unfoldable pub poll : Accepted → AcceptState → World → Polled AcceptState (ℕ × World × ℕ)
  unfolding after_accept from_socket
  poll calls (pending listener interest) w =
      let (waiting, v) = still_waiting me interest w in
      if waiting
      then record { state = pending listener interest; result = ok not_ready; world = v }
      else after_accept calls calls.accepted listener interest (attempt v)
  poll calls taken w = record { state = taken; result = panic; world = w }
