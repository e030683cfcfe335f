-- ===== src/Epoll/Net/SendTo.antt =====
-- src/epoll/net.rs: `UdpSocket::send_to` and the future `SendTo`. A datagram that was sent in part
-- is the error `WriteZero`.
use complete_io.Base.{
  ℕ, Option, none, List, length, ◌==◌, if◌then◌else◌, IoError, write_zero, ok, err, panic, ready,
  not_ready, would_block,
}
use complete_io.Epoll.Mask.{write_only}
use complete_io.Epoll.Interests.{World}
use complete_io.Epoll.Net.{Reply, got, failed, Polled, still_waiting, attempt, blocked}

pub data SendToState : Type 0 where
  pending : (socket : ℕ) → List ℕ → (addr : ℕ) → Option ℕ → SendToState
  taken : SendToState  -- `SendToState::None`

-- `UdpSocket::send_to`
pub send_to : ℕ → List ℕ → ℕ → SendToState
send_to socket buffer addr = pending socket buffer addr none

module _ (kernel : ℕ → Option IoError) (me : ℕ) where
  pub sent : Reply ℕ → ℕ → List ℕ → ℕ → Option ℕ → World → Polled SendToState (ℕ × List ℕ)
  sent (got byte_count) socket buffer addr interest w =
      if byte_count == length buffer
      then record { state = taken; result = ok (ready (socket, buffer)); world = w }
      else record { state = taken; result = err write_zero; world = w }
  sent (failed e) socket buffer addr interest w =
      if would_block e
      then blocked kernel me write_only (λ i. pending socket buffer addr i) taken interest w
      else record { state = taken; result = err e; world = w }

  -- `SendTo::poll`
  unfoldable pub poll : Reply ℕ → SendToState → World → Polled SendToState (ℕ × List ℕ)
  unfolding sent
  poll send (pending socket buffer addr interest) w =
      let (waiting, v) = still_waiting me interest w in
      if waiting
      then record { state = pending socket buffer addr interest; result = ok not_ready; world = v }
      else sent send socket buffer addr interest (attempt v)
  poll send taken w = record { state = taken; result = panic; world = w }
