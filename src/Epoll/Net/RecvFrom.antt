-- ===== src/Epoll/Net/RecvFrom.antt =====
-- src/epoll/net.rs: `UdpSocket::recv_from` and the future `RecvFrom`.
use complete_io.Base.{
  ℕ, Option, none, List, length, if◌then◌else◌, IoError, ok, err, panic, ready, not_ready,
  would_block,
}
use complete_io.Bytes.{BytesMut, receive}
use complete_io.Epoll.Mask.{read_only}
use complete_io.Epoll.Interests.{World}
use complete_io.Epoll.Net.{Reply, got, failed, Polled, still_waiting, attempt, blocked}

pub data RecvFromState : Type 0 where
  pending : (socket : ℕ) → BytesMut → Option ℕ → RecvFromState
  taken : RecvFromState  -- `RecvFromState::None`

-- `UdpSocket::recv_from`
pub recv_from : ℕ → BytesMut → RecvFromState
recv_from socket buffer = pending socket buffer none

module _ (kernel : ℕ → Option IoError) (me : ℕ) where
  pub received :
      Reply (List ℕ × ℕ)
      → ℕ
      → BytesMut
      → Option ℕ
      → World
      → Polled RecvFromState (ℕ × BytesMut × ℕ × ℕ)
  received (got (bytes, remote_addr)) socket buffer interest w = record {
    state = taken;
    result = ok (ready (socket, receive bytes buffer, length bytes, remote_addr));
    world = w;
  }
  received (failed e) socket buffer interest w =
      if would_block e
      then blocked kernel me read_only (pending socket buffer) taken interest w
      else record { state = taken; result = err e; world = w }

  -- `RecvFrom::poll`
  unfoldable pub poll :
      Reply (List ℕ × ℕ) → RecvFromState → World → Polled RecvFromState (ℕ × BytesMut × ℕ × ℕ)
  unfolding received
  poll recv (pending socket buffer interest) w =
      let (waiting, v) = still_waiting me interest w in
      if waiting
      then record { state = pending socket buffer interest; result = ok not_ready; world = v }
      else received recv socket buffer interest (attempt v)
  poll recv taken w = record { state = taken; result = panic; world = w }
