-- ===== src/Iocp/Net/RecvFrom.antt =====
-- src/iocp/net.rs: `UdpSocket::recv_from` and the future `RecvFrom`. The operation delivers
-- the bytes and the address in its buffer, if that can be read.
use complete_io.Base.{ℕ, List, length, Option, none, some, Result, ok, panic}
use complete_io.Bytes.{BytesMut, overwrite}
use complete_io.Iocp.{Overlapped, Submitted, Reply}
use complete_io.Iocp.Net.{Polled, Fate, freed, cancelled, initial_poll, pending_poll}

pub data RecvFromState : Type 0 where
  initial : (socket : ℕ) → (buffer : BytesMut) → RecvFromState
  pending : (socket : ℕ) → (buffer : BytesMut) → RecvFromState
  taken : RecvFromState  -- `RecvFromState::None`

-- `UdpSocket::recv_from`, of a buffer that `ensure_bytesmut_safe` has moved out of line
pub recv_from : ℕ → BytesMut → RecvFromState
recv_from socket buffer = initial socket buffer

-- What comes back with a datagram: `to_socket_addr().unwrap()`.
unfoldable pub received : ℕ → BytesMut → List ℕ × Option ℕ → Result (ℕ × BytesMut × ℕ × ℕ)
unfolding overwrite
received socket buffer (bytes, some addr) =
    ok (socket, record buffer { memory = overwrite bytes buffer.memory }, length bytes, addr)
received socket buffer (bytes, none) = panic

-- `RecvFrom::poll`
unfoldable pub poll :
    ℕ
    → Submitted (List ℕ × Option ℕ)
    → RecvFromState
    → Overlapped (List ℕ × Option ℕ)
    → Polled RecvFromState (ℕ × BytesMut × ℕ × ℕ) (List ℕ × Option ℕ)
unfolding initial_poll pending_poll
poll me call (initial socket buffer) o =
    initial_poll (received socket buffer) (pending socket buffer) taken me call
poll me call (pending socket buffer) o =
    pending_poll (received socket buffer) (pending socket buffer) taken me o
poll me call taken o = record { state = taken; result = panic; task = o }

-- `RecvFrom::drop`, with what becomes of the buffer, which the buffer of the address shares.
unfoldable pub release :
    Reply (Unit {0})
    → RecvFromState
    → Overlapped (List ℕ × Option ℕ)
    → Fate × Overlapped (List ℕ × Option ℕ)
unfolding cancelled
release cancel (initial socket buffer) o = (freed, o)
release cancel (pending socket buffer) o = cancelled cancel o
release cancel taken o = (freed, o)
