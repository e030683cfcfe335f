-- ===== src/Iocp/Net/TcpRead.antt =====
-- src/iocp/net.rs: `TcpStream::read` and the future `TcpRead`. `read_overlapped` gets the part of the buffer in
-- use, and the length stays.
use complete_io.Base.{ℕ, List, length, Result, ok, panic}
use complete_io.Bytes.{BytesMut, overwrite}
use complete_io.Iocp.{Overlapped, Submitted, Reply}
use complete_io.Iocp.Net.{Polled, Fate, freed, cancelled, initial_poll, pending_poll}

pub data TcpReadState : Type 0 where
  initial : (stream : ℕ) → (buffer : BytesMut) → TcpReadState
  pending : (stream : ℕ) → (buffer : BytesMut) → TcpReadState
  taken : TcpReadState  -- `TcpReadState::None`

-- `TcpStream::read`, of a buffer that `ensure_bytesmut_safe` has moved out of line
pub read : ℕ → BytesMut → TcpReadState
read stream buffer = initial stream buffer

-- What comes back with the bytes that were received.
unfoldable pub received : ℕ → BytesMut → List ℕ → Result (ℕ × BytesMut × ℕ)
unfolding overwrite
received stream buffer bytes =
    ok (stream, record buffer { memory = overwrite bytes buffer.memory }, length bytes)

-- `TcpRead::poll`
unfoldable pub poll :
    ℕ
    → Submitted (List ℕ)
    → TcpReadState
    → Overlapped (List ℕ)
    → Polled TcpReadState (ℕ × BytesMut × ℕ) (List ℕ)
unfolding initial_poll pending_poll
poll me call (initial stream buffer) o =
    initial_poll (received stream buffer) (pending stream buffer) taken me call
poll me call (pending stream buffer) o =
    pending_poll (received stream buffer) (pending stream buffer) taken me o
poll me call taken o = record { state = taken; result = panic; task = o }

-- `TcpRead::drop`, with what becomes of the buffer.
unfoldable pub release :
    Reply (Unit {0}) → TcpReadState → Overlapped (List ℕ) → Fate × Overlapped (List ℕ)
unfolding cancelled
release cancel (initial stream buffer) o = (freed, o)
release cancel (pending stream buffer) o = cancelled cancel o
release cancel taken o = (freed, o)
