-- ===== src/Iocp/Net/Polls.antt =====
-- src/iocp/net.rs: the polls of the six futures together.
use complete_io.Base.{ℕ, ◌≡◌, Option, List}
use complete_io.Bytes.{BytesMut}
use complete_io.Iocp.{Overlapped, Submitted, Reply, got}
use complete_io.Iocp.Net.{Polled}
use complete_io.Iocp.Net.Accept
use complete_io.Iocp.Net.Accept.{Listener, Calls}
use complete_io.Iocp.Net.Connect
use complete_io.Iocp.Net.TcpRead
use complete_io.Iocp.Net.TcpWrite
use complete_io.Iocp.Net.RecvFrom
use complete_io.Iocp.Net.SendTo
use complete_io.Iocp.Net.Outcomes.{
  Outcome, iocp_tcp_read-Outcome, iocp_tcp_write-Outcome, iocp_recv_from-Outcome,
  iocp_send_to-Outcome, iocp_connect-Outcome, iocp_accept-Outcome,
}

-- The first poll and a later one.
abbrev pub Outcomes : {S T A : Type 0} → S → S → ℕ → Polled S T A → Polled S T A → Type 0
Outcomes pending gone me first later = Outcome pending gone me first × Outcome pending gone me later

-- A poll of any of the six futures of the completion port, new or pending, whatever Windows answers,
-- for an Accept when a socket of the family of its listener was made: either it suspends the future
-- with its stream, listener or socket and its buffer or bytes on an operation in flight, with the
-- polling task as the last one that registered, or it finishes it with its state taken.
pub iocp_socket-Outcome :
    (me : ℕ) (recv : Submitted (List ℕ)) (recv_from : Submitted (List ℕ × Option ℕ))
    (send send_to : Submitted ℕ) (connected accepted : Submitted (Unit {0}))
    (completed : Reply (Unit {0})) (calls : Calls) (listener : Listener) (socket addr : ℕ)
    (buffer : BytesMut) (bytes : List ℕ) (o : Overlapped (List ℕ))
    (o_from : Overlapped (List ℕ × Option ℕ)) (o_send : Overlapped ℕ)
    (o_unit : Overlapped (Unit {0}))
    → Accept.acceptee listener.ip_version calls ≡ got socket
    → Outcomes
        (TcpRead.pending socket buffer)
        TcpRead.taken
        me
        (TcpRead.poll me recv (TcpRead.initial socket buffer) o)
        (TcpRead.poll me recv (TcpRead.pending socket buffer) o)
      × Outcomes
          (TcpWrite.pending socket bytes)
          TcpWrite.taken
          me
          (TcpWrite.poll me send (TcpWrite.initial socket bytes) o_send)
          (TcpWrite.poll me send (TcpWrite.pending socket bytes) o_send)
      × Outcomes
          (RecvFrom.pending socket buffer)
          RecvFrom.taken
          me
          (RecvFrom.poll me recv_from (RecvFrom.initial socket buffer) o_from)
          (RecvFrom.poll me recv_from (RecvFrom.pending socket buffer) o_from)
      × Outcomes
          (SendTo.pending socket bytes)
          SendTo.taken
          me
          (SendTo.poll me send_to (SendTo.initial socket bytes addr) o_send)
          (SendTo.poll me send_to (SendTo.pending socket bytes) o_send)
      × Outcomes
          (Connect.pending socket)
          Connect.taken
          me
          (Connect.poll completed me connected (Connect.initial socket addr) o_unit)
          (Connect.poll completed me connected (Connect.pending socket) o_unit)
      × Outcomes
          (Accept.pending_single_stack listener socket)
          Accept.taken
          me
          (Accept.poll calls me accepted (Accept.initial listener) o_unit)
          (Accept.poll calls me accepted (Accept.pending_single_stack listener socket) o_unit)
iocp_socket-Outcome me recv recv_from send send_to connected accepted completed calls listener
      socket addr buffer bytes o o_from o_send o_unit q =
    (
      iocp_tcp_read-Outcome me recv socket buffer o,
      iocp_tcp_write-Outcome me send socket bytes o_send,
      iocp_recv_from-Outcome me recv_from socket buffer o_from,
      iocp_send_to-Outcome me send_to socket bytes addr o_send,
      iocp_connect-Outcome completed me connected socket addr o_unit,
      iocp_accept-Outcome calls me accepted listener socket o_unit q,
    )
