-- ===== src/Iocp/Net/Futures.antt =====
-- src/iocp/net.rs: the four futures with a buffer as overlapped futures.
use complete_io.Base.{ℕ, refl, Option, List}
use complete_io.Bytes.{BytesMut}
use complete_io.Iocp.{Overlapped, Submitted, Reply}
use complete_io.Iocp.Net.Counts.{
  IsCounted, Keeps, initial-Keeps, pending-Keeps, cancelled-IsCounted,
}
use complete_io.Iocp.Net.Lifetime.{OverlappedFuture}
use complete_io.Iocp.Net.TcpRead
use complete_io.Iocp.Net.TcpRead.{TcpReadState}
use complete_io.Iocp.Net.TcpWrite
use complete_io.Iocp.Net.TcpWrite.{TcpWriteState}
use complete_io.Iocp.Net.RecvFrom
use complete_io.Iocp.Net.RecvFrom.{RecvFromState}
use complete_io.Iocp.Net.SendTo
use complete_io.Iocp.Net.SendTo.{SendToState}

abbrev pub tcp_read_held : TcpReadState → ℕ
tcp_read_held (TcpRead.initial stream buffer) = 0
tcp_read_held (TcpRead.pending stream buffer) = 1
tcp_read_held TcpRead.taken = 0

pub tcp_read-Keeps :
    (me : ℕ) (call : Submitted (List ℕ)) (s : TcpReadState) (o : Overlapped (List ℕ))
    → IsCounted (tcp_read_held s) o
    → Keeps tcp_read_held (TcpRead.poll me call s o)
unfolding TcpRead.poll
tcp_read-Keeps me call (TcpRead.initial stream buffer) o c =
    initial-Keeps _ _ _ tcp_read_held refl refl me call
tcp_read-Keeps me call (TcpRead.pending stream buffer) o c =
    pending-Keeps _ _ _ tcp_read_held refl refl me o c
tcp_read-Keeps me call TcpRead.taken o c = c

pub tcp_read_release-IsCounted :
    (cancel : Reply (Unit {0})) (s : TcpReadState) (o : Overlapped (List ℕ))
    → IsCounted (tcp_read_held s) o
    → IsCounted 0 (TcpRead.release cancel s o).1
unfolding TcpRead.release
tcp_read_release-IsCounted cancel (TcpRead.initial stream buffer) o c = c
tcp_read_release-IsCounted cancel (TcpRead.pending stream buffer) o c =
    cancelled-IsCounted cancel o c
tcp_read_release-IsCounted cancel TcpRead.taken o c = c

-- `TcpRead`, as its socket's method makes it.
abbrev pub tcp_read : ℕ → BytesMut → OverlappedFuture
tcp_read stream buffer = record {
  State = TcpReadState;
  Item = ℕ × BytesMut × ℕ;
  Payload = (List ℕ);
  Answers = Unit {0};
  start = TcpRead.initial stream buffer;
  gone = TcpRead.taken;
  held = tcp_read_held;
  poll = λ _ me call s o. TcpRead.poll me call s o;
  release = λ cancel s o. (TcpRead.release cancel s o).1;
  held-start = refl;
  poll-Keeps = λ _ me call s o c. tcp_read-Keeps me call s o c;
  release-IsCounted = tcp_read_release-IsCounted;
}

abbrev pub tcp_write_held : TcpWriteState → ℕ
tcp_write_held (TcpWrite.initial stream buffer) = 0
tcp_write_held (TcpWrite.pending stream buffer) = 1
tcp_write_held TcpWrite.taken = 0

pub tcp_write-Keeps :
    (me : ℕ) (call : Submitted ℕ) (s : TcpWriteState) (o : Overlapped ℕ)
    → IsCounted (tcp_write_held s) o
    → Keeps tcp_write_held (TcpWrite.poll me call s o)
unfolding TcpWrite.poll
tcp_write-Keeps me call (TcpWrite.initial stream buffer) o c =
    initial-Keeps _ _ _ tcp_write_held refl refl me call
tcp_write-Keeps me call (TcpWrite.pending stream buffer) o c =
    pending-Keeps _ _ _ tcp_write_held refl refl me o c
tcp_write-Keeps me call TcpWrite.taken o c = c

pub tcp_write_release-IsCounted :
    (cancel : Reply (Unit {0})) (s : TcpWriteState) (o : Overlapped ℕ)
    → IsCounted (tcp_write_held s) o
    → IsCounted 0 (TcpWrite.release cancel s o).1
unfolding TcpWrite.release
tcp_write_release-IsCounted cancel (TcpWrite.initial stream buffer) o c = c
tcp_write_release-IsCounted cancel (TcpWrite.pending stream buffer) o c =
    cancelled-IsCounted cancel o c
tcp_write_release-IsCounted cancel TcpWrite.taken o c = c

-- `TcpWrite`, as its socket's method makes it.
abbrev pub tcp_write : ℕ → List ℕ → OverlappedFuture
tcp_write stream buffer = record {
  State = TcpWriteState;
  Item = ℕ × List ℕ × ℕ;
  Payload = ℕ;
  Answers = Unit {0};
  start = TcpWrite.initial stream buffer;
  gone = TcpWrite.taken;
  held = tcp_write_held;
  poll = λ _ me call s o. TcpWrite.poll me call s o;
  release = λ cancel s o. (TcpWrite.release cancel s o).1;
  held-start = refl;
  poll-Keeps = λ _ me call s o c. tcp_write-Keeps me call s o c;
  release-IsCounted = tcp_write_release-IsCounted;
}

abbrev pub recv_from_held : RecvFromState → ℕ
recv_from_held (RecvFrom.initial socket buffer) = 0
recv_from_held (RecvFrom.pending socket buffer) = 1
recv_from_held RecvFrom.taken = 0

pub recv_from-Keeps :
    (me : ℕ) (call : Submitted (List ℕ × Option ℕ)) (s : RecvFromState)
    (o : Overlapped (List ℕ × Option ℕ))
    → IsCounted (recv_from_held s) o
    → Keeps recv_from_held (RecvFrom.poll me call s o)
unfolding RecvFrom.poll
recv_from-Keeps me call (RecvFrom.initial socket buffer) o c =
    initial-Keeps _ _ _ recv_from_held refl refl me call
recv_from-Keeps me call (RecvFrom.pending socket buffer) o c =
    pending-Keeps _ _ _ recv_from_held refl refl me o c
recv_from-Keeps me call RecvFrom.taken o c = c

pub recv_from_release-IsCounted :
    (cancel : Reply (Unit {0})) (s : RecvFromState) (o : Overlapped (List ℕ × Option ℕ))
    → IsCounted (recv_from_held s) o
    → IsCounted 0 (RecvFrom.release cancel s o).1
unfolding RecvFrom.release
recv_from_release-IsCounted cancel (RecvFrom.initial socket buffer) o c = c
recv_from_release-IsCounted cancel (RecvFrom.pending socket buffer) o c =
    cancelled-IsCounted cancel o c
recv_from_release-IsCounted cancel RecvFrom.taken o c = c

-- `RecvFrom`, as its socket's method makes it.
abbrev pub recv_from : ℕ → BytesMut → OverlappedFuture
recv_from socket buffer = record {
  State = RecvFromState;
  Item = ℕ × BytesMut × ℕ × ℕ;
  Payload = (List ℕ × Option ℕ);
  Answers = Unit {0};
  start = RecvFrom.initial socket buffer;
  gone = RecvFrom.taken;
  held = recv_from_held;
  poll = λ _ me call s o. RecvFrom.poll me call s o;
  release = λ cancel s o. (RecvFrom.release cancel s o).1;
  held-start = refl;
  poll-Keeps = λ _ me call s o c. recv_from-Keeps me call s o c;
  release-IsCounted = recv_from_release-IsCounted;
}

abbrev pub send_to_held : SendToState → ℕ
send_to_held (SendTo.initial socket buffer addr) = 0
send_to_held (SendTo.pending socket buffer) = 1
send_to_held SendTo.taken = 0

pub send_to-Keeps :
    (me : ℕ) (call : Submitted ℕ) (s : SendToState) (o : Overlapped ℕ)
    → IsCounted (send_to_held s) o
    → Keeps send_to_held (SendTo.poll me call s o)
unfolding SendTo.poll
send_to-Keeps me call (SendTo.initial socket buffer addr) o c =
    initial-Keeps _ _ _ send_to_held refl refl me call
send_to-Keeps me call (SendTo.pending socket buffer) o c =
    pending-Keeps _ _ _ send_to_held refl refl me o c
send_to-Keeps me call SendTo.taken o c = c

pub send_to_release-IsCounted :
    (cancel : Reply (Unit {0})) (s : SendToState) (o : Overlapped ℕ)
    → IsCounted (send_to_held s) o
    → IsCounted 0 (SendTo.release cancel s o).1
unfolding SendTo.release
send_to_release-IsCounted cancel (SendTo.initial socket buffer addr) o c = c
send_to_release-IsCounted cancel (SendTo.pending socket buffer) o c = cancelled-IsCounted cancel o c
send_to_release-IsCounted cancel SendTo.taken o c = c

-- `SendTo`, as its socket's method makes it.
abbrev pub send_to : ℕ → List ℕ → ℕ → OverlappedFuture
send_to socket buffer addr = record {
  State = SendToState;
  Item = ℕ × List ℕ;
  Payload = ℕ;
  Answers = Unit {0};
  start = SendTo.initial socket buffer addr;
  gone = SendTo.taken;
  held = send_to_held;
  poll = λ _ me call s o. SendTo.poll me call s o;
  release = λ cancel s o. (SendTo.release cancel s o).1;
  held-start = refl;
  poll-Keeps = λ _ me call s o c. send_to-Keeps me call s o c;
  release-IsCounted = send_to_release-IsCounted;
}
