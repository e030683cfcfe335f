-- ===== src/Iocp/Net/Operations.antt =====
-- src/iocp/net.rs: the six futures of the sockets of a completion port, and the count of each one's
-- overlapped operation.
use complete_io.Base.{ℕ, ◌+◌, ◌≡◌, some, List}
use complete_io.Bytes.{BytesMut}
use complete_io.Iocp.Net.Accept.{Listener}
use complete_io.Iocp.Net.Counts.{flights}
use complete_io.Iocp.Net.Lifetime.{OverlappedFuture, Event, Life, unborn, run, operation_count}
use complete_io.Iocp.Net.Futures
use complete_io.Iocp.Net.Sockets

-- A call of a method of a socket, with its arguments.
pub data Operation : Type 0 where
  connect : (stream addr : ℕ) → Operation
  accept : Listener → Operation
  tcp_read : (stream : ℕ) → BytesMut → Operation
  tcp_write : (stream : ℕ) → List ℕ → Operation
  recv_from : (socket : ℕ) → BytesMut → Operation
  send_to : (socket : ℕ) → List ℕ → (addr : ℕ) → Operation

-- The future that it makes.
abbrev pub future_of : Operation → OverlappedFuture
future_of (connect stream addr) = Sockets.connect stream addr
future_of (accept listener) = Sockets.accept listener
future_of (tcp_read stream buffer) = Futures.tcp_read stream buffer
future_of (tcp_write stream buffer) = Futures.tcp_write stream buffer
future_of (recv_from socket buffer) = Futures.recv_from socket buffer
future_of (send_to socket buffer addr) = Futures.send_to socket buffer addr

module _ (operation : Operation) where
  open future_of operation use {Payload, Answers, held}

  -- For each of the six futures of the sockets, whatever Windows answers and in whatever order its
  -- polls, its drop, the completion and the turns come: the strong count of the overlapped operation
  -- is the handle that the future holds, plus the packets in the port, plus one while the operation is
  -- in flight.
  pub socket_operation_count :
      (es : List (Event Answers Payload)) (l : Life (future_of operation))
      → run (future_of operation) es (unborn (future_of operation)) ≡ some l
      → l.task.count ≡ held l.state + (l.task.packets + flights l.task.status)
  socket_operation_count es l q = operation_count (future_of operation) es l q
