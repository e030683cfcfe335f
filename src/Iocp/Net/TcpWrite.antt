-- ===== src/Iocp/Net/TcpWrite.antt =====
-- src/iocp/net.rs: `TcpStream::write` and the future `TcpWrite`.
use complete_io.Base.{ℕ, List, Result, ok, panic}
use complete_io.Iocp.{Overlapped, Submitted, Reply}
use complete_io.Iocp.Net.{Polled, Fate, freed, cancelled, initial_poll, pending_poll}

pub data TcpWriteState : Type 0 where
  initial : (stream : ℕ) → (buffer : List ℕ) → TcpWriteState
  pending : (stream : ℕ) → (buffer : List ℕ) → TcpWriteState
  taken : TcpWriteState  -- `TcpWriteState::None`

-- `TcpStream::write`, of a buffer that `ensure_bytes_safe` has moved out of line
pub write : ℕ → List ℕ → TcpWriteState
write stream buffer = initial stream buffer

-- What comes back when `byte_count` bytes were sent.
unfoldable pub sent : ℕ → List ℕ → ℕ → Result (ℕ × List ℕ × ℕ)
sent stream buffer byte_count = ok (stream, buffer, byte_count)

-- `TcpWrite::poll`
unfoldable pub poll :
    ℕ → Submitted ℕ → TcpWriteState → Overlapped ℕ → Polled TcpWriteState (ℕ × List ℕ × ℕ) ℕ
unfolding initial_poll pending_poll
poll me call (initial stream buffer) o =
    initial_poll (sent stream buffer) (pending stream buffer) taken me call
poll me call (pending stream buffer) o =
    pending_poll (sent stream buffer) (pending stream buffer) taken me o
poll me call taken o = record { state = taken; result = panic; task = o }

-- `TcpWrite::drop`, with what becomes of the buffer.
unfoldable pub release : Reply (Unit {0}) → TcpWriteState → Overlapped ℕ → Fate × Overlapped ℕ
unfolding cancelled
release cancel (initial stream buffer) o = (freed, o)
release cancel (pending stream buffer) o = cancelled cancel o
release cancel taken o = (freed, o)
