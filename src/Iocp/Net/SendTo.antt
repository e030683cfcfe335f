-- ===== src/Iocp/Net/SendTo.antt =====
-- src/iocp/net.rs: `UdpSocket::send_to` and the future `SendTo`. A datagram that was sent in part
-- is the error `WriteZero`.
use complete_io.Base.{ℕ, List, length, Result, ok, err, panic, write_zero, ◌==◌, if◌then◌else◌}
use complete_io.Iocp.{Overlapped, Submitted, Reply}
use complete_io.Iocp.Net.{Polled, Fate, freed, cancelled, initial_poll, pending_poll}

pub data SendToState : Type 0 where
  initial : (socket : ℕ) → (buffer : List ℕ) → (addr : ℕ) → SendToState
  pending : (socket : ℕ) → (buffer : List ℕ) → SendToState
  taken : SendToState  -- `SendToState::None`

-- `UdpSocket::send_to`, of a buffer that `ensure_bytes_safe` has moved out of line
pub send_to : ℕ → List ℕ → ℕ → SendToState
send_to socket buffer addr = initial socket buffer addr

-- What comes back when `byte_count` bytes were sent.
unfoldable pub sent : ℕ → List ℕ → ℕ → Result (ℕ × List ℕ)
sent socket buffer byte_count =
    if byte_count == length buffer then ok (socket, buffer) else err write_zero

-- `SendTo::poll`
unfoldable pub poll :
    ℕ → Submitted ℕ → SendToState → Overlapped ℕ → Polled SendToState (ℕ × List ℕ) ℕ
unfolding initial_poll pending_poll
poll me call (initial socket buffer addr) o =
    initial_poll (sent socket buffer) (pending socket buffer) taken me call
poll me call (pending socket buffer) o =
    pending_poll (sent socket buffer) (pending socket buffer) taken me o
poll me call taken o = record { state = taken; result = panic; task = o }

-- `SendTo::drop`, with what becomes of the buffer.
unfoldable pub release : Reply (Unit {0}) → SendToState → Overlapped ℕ → Fate × Overlapped ℕ
unfolding cancelled
release cancel (initial socket buffer addr) o = (freed, o)
release cancel (pending socket buffer) o = cancelled cancel o
release cancel taken o = (freed, o)
