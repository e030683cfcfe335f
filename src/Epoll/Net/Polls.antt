-- ===== src/Epoll/Net/Polls.antt =====
-- src/epoll/net.rs: the polls of the sockets of each kind together.
use complete_io.Base.{ℕ, Option, List, IoError}
use complete_io.Bytes.{BytesMut}
use complete_io.Epoll.Interests.{World}
use complete_io.Epoll.Net.{Reply}
use complete_io.Epoll.Net.Accept
use complete_io.Epoll.Net.Accept.{Accepted}
use complete_io.Epoll.Net.Connect
use complete_io.Epoll.Net.TcpRead
use complete_io.Epoll.Net.TcpWrite
use complete_io.Epoll.Net.RecvFrom
use complete_io.Epoll.Net.SendTo
use complete_io.Epoll.Net.Waiting.{Outcome, IsMade}
use complete_io.Epoll.Net.Outcomes.{
  tcp_read-Outcome, tcp_write-Outcome, recv_from-Outcome, send_to-Outcome, connect-Outcome,
  accept-Outcome,
}

module _ (kernel : ℕ → Option IoError) (me : ℕ) (interest : Option ℕ) (w : World) where
  -- A poll of any of the six futures of a socket, with an interest of its registration and
  -- whatever its system calls answer, either suspends it with all that it holds (its stream,
  -- listener or socket, its buffer or bytes, its address) and an interest for which the polling
  -- task was the last to register, or finishes it with its state taken.
  pub socket-Outcome :
      (recv : Reply (List ℕ)) (recv_from : Reply (List ℕ × ℕ)) (send sent_to : Reply ℕ)
      (connected : Reply (Unit {0})) (calls : Accepted) (socket addr : ℕ) (buffer : BytesMut)
      (bytes : List ℕ)
      → IsMade interest w
      → Outcome
          (TcpRead.pending socket buffer)
          TcpRead.taken
          me
          (TcpRead.poll kernel me recv (TcpRead.pending socket buffer interest) w)
        × Outcome
            (TcpWrite.pending socket bytes)
            TcpWrite.taken
            me
            (TcpWrite.poll kernel me send (TcpWrite.pending socket bytes interest) w)
        × Outcome
            (RecvFrom.pending socket buffer)
            RecvFrom.taken
            me
            (RecvFrom.poll kernel me recv_from (RecvFrom.pending socket buffer interest) w)
        × Outcome
            (SendTo.pending socket bytes addr)
            SendTo.taken
            me
            (SendTo.poll kernel me sent_to (SendTo.pending socket bytes addr interest) w)
        × Outcome
            (Connect.pending socket addr)
            Connect.taken
            me
            (Connect.poll kernel me connected (Connect.pending socket addr interest) w)
        × Outcome
            (Accept.pending socket)
            Accept.taken
            me
            (Accept.poll kernel me calls (Accept.pending socket interest) w)
  socket-Outcome recv recv_from send sent_to connected calls socket addr buffer bytes m = (
    tcp_read-Outcome kernel me recv socket buffer interest w m,
    tcp_write-Outcome kernel me send socket bytes interest w m,
    recv_from-Outcome kernel me recv_from socket buffer interest w m,
    send_to-Outcome kernel me sent_to socket bytes addr interest w m,
    connect-Outcome kernel me connected socket addr interest w m,
    accept-Outcome kernel me calls socket interest w m,
  )
