-- ===== src/Epoll/Net/Outcomes.antt =====
-- src/epoll/net.rs: each `poll` suspends its future without losing what it holds, and with an
-- interest for which the polling task was the last to register, or finishes it.
use complete_io.Base.{
  ℕ, ◌≢◌, refl, Bool, true, false, ◌==◌, Option, List, length, IoError, Result, ok, err, panic,
  ready, not_ready, write_zero, would_block, ◌||◌, if◌then◌else◌,
}
use complete_io.Bytes.{BytesMut}
use complete_io.Epoll.Mask.{read_only, write_only}
use complete_io.Epoll.Interests.{World}
use complete_io.Epoll.Net.{Reply, got, failed, from_socket}
use complete_io.Epoll.Net.Waiting.{
  Outcome, finished, done-Outcome, error-Outcome, IsMade, polled-Outcome, refused-Outcome,
}
use complete_io.Epoll.Net.Accept
use complete_io.Epoll.Net.Accept.{Accepted}
use complete_io.Epoll.Net.Connect
use complete_io.Epoll.Net.TcpRead
use complete_io.Epoll.Net.TcpWrite
use complete_io.Epoll.Net.RecvFrom
use complete_io.Epoll.Net.SendTo

ready_or_error : (stream addr : ℕ) (r : Result World) → Accept.as_ready stream addr r ≢ ok not_ready
ready_or_error stream addr (ok w) q = cc
ready_or_error stream addr (err e) q = cc
ready_or_error stream addr panic q = cc

module _ (kernel : ℕ → Option IoError) (me : ℕ) where
  -- A poll of a read, whatever `recv` answers: either the future is suspended, with its stream and
  -- its buffer as before and an interest of the registration for which the polling task was the
  -- last to register, or its state is taken.
  pub tcp_read-Outcome :
      (recv : Reply (List ℕ)) (stream : ℕ) (buffer : BytesMut) (interest : Option ℕ) (w : World)
      → IsMade interest w
      → Outcome
          (TcpRead.pending stream buffer)
          TcpRead.taken
          me
          (TcpRead.poll kernel me recv (TcpRead.pending stream buffer interest) w)
  unfolding TcpRead.poll
  tcp_read-Outcome (got bytes) stream buffer interest w m =
      polled-Outcome interest w (TcpRead.received kernel me (got bytes) stream buffer interest) m
        (λ v _. done-Outcome _ v)
  tcp_read-Outcome (failed e) stream buffer interest w m =
      polled-Outcome interest w (TcpRead.received kernel me (failed e) stream buffer interest) m
        (refused-Outcome kernel read_only e (would_block e) interest)

  -- A poll of a write, whatever `send` answers: either the future is suspended, with its stream
  -- and its bytes as before and an interest of the registration for which the polling task was the
  -- last to register, or its state is taken.
  pub tcp_write-Outcome :
      (send : Reply ℕ) (stream : ℕ) (bytes : List ℕ) (interest : Option ℕ) (w : World)
      → IsMade interest w
      → Outcome
          (TcpWrite.pending stream bytes)
          TcpWrite.taken
          me
          (TcpWrite.poll kernel me send (TcpWrite.pending stream bytes interest) w)
  unfolding TcpWrite.poll
  tcp_write-Outcome (got byte_count) stream bytes interest w m =
      polled-Outcome interest w (TcpWrite.sent kernel me (got byte_count) stream bytes interest) m
        (λ v _. done-Outcome _ v)
  tcp_write-Outcome (failed e) stream bytes interest w m =
      polled-Outcome interest w (TcpWrite.sent kernel me (failed e) stream bytes interest) m
        (refused-Outcome kernel write_only e (would_block e) interest)

  -- A poll of a connection attempt, whatever `connect` answers: either the future is suspended,
  -- with its stream and its address as before and an interest of the registration for which the
  -- polling task was the last to register, or its state is taken.
  pub connect-Outcome :
      (connected : Reply (Unit {0})) (stream addr : ℕ) (interest : Option ℕ) (w : World)
      → IsMade interest w
      → Outcome
          (Connect.pending stream addr)
          Connect.taken
          me
          (Connect.poll kernel me connected (Connect.pending stream addr interest) w)
  unfolding Connect.poll
  connect-Outcome (got x) stream addr interest w m =
      polled-Outcome interest w (Connect.after_connect kernel me (got x) stream addr interest) m
        (λ v _. done-Outcome _ v)
  connect-Outcome (failed e) stream addr interest w m =
      polled-Outcome interest w (Connect.after_connect kernel me (failed e) stream addr interest) m
        (refused-Outcome kernel write_only e (would_block e || Connect.in_progress e) interest)

  -- A poll of a datagram's receipt, whatever `recv_from` answers: either the future is suspended,
  -- with its socket and its buffer as before and an interest of the registration for which the
  -- polling task was the last to register, or its state is taken.
  pub recv_from-Outcome :
      (recv : Reply (List ℕ × ℕ)) (socket : ℕ) (buffer : BytesMut) (interest : Option ℕ) (w : World)
      → IsMade interest w
      → Outcome
          (RecvFrom.pending socket buffer)
          RecvFrom.taken
          me
          (RecvFrom.poll kernel me recv (RecvFrom.pending socket buffer interest) w)
  unfolding RecvFrom.poll
  recv_from-Outcome (got (bytes, addr)) socket buffer interest w m =
      polled-Outcome interest w
        (RecvFrom.received kernel me (got (bytes, addr)) socket buffer interest) m
        (λ v _. done-Outcome _ v)
  recv_from-Outcome (failed e) socket buffer interest w m =
      polled-Outcome interest w (RecvFrom.received kernel me (failed e) socket buffer interest) m
        (refused-Outcome kernel read_only e (would_block e) interest)

  sent-Outcome :
      (socket : ℕ) (buffer : List ℕ) {pending : Option ℕ → SendTo.SendToState} (w : World)
      (complete : Bool)
      → Outcome {A = ℕ × List ℕ} pending SendTo.taken me (
          if complete
          then record { state = SendTo.taken; result = ok (ready (socket, buffer)); world = w }
          else record { state = SendTo.taken; result = err write_zero; world = w })
  sent-Outcome socket buffer w true = done-Outcome _ w
  sent-Outcome socket buffer w false = error-Outcome write_zero w

  after_accept-Outcome :
      (calls : Accepted) (accepted : Reply (ℕ × ℕ)) (listener : ℕ) (interest : Option ℕ) (w : World)
      → IsMade interest w
      → Outcome
          (Accept.pending listener)
          Accept.taken
          me
          (Accept.after_accept kernel me calls accepted listener interest w)
  unfolding Accept.poll
  after_accept-Outcome calls (got (stream, addr)) listener interest w m =
      finished (ready_or_error stream addr (from_socket calls.ctl_add calls.set_nonblocking)) refl
  after_accept-Outcome calls (failed e) listener interest w m =
      refused-Outcome kernel read_only e (would_block e) interest w m

  -- A poll of a datagram's dispatch, whatever `send_to` answers: either the future is suspended,
  -- with its socket, its bytes and its address as before and an interest of the registration for
  -- which the polling task was the last to register, or its state is taken.
  pub send_to-Outcome :
      (send : Reply ℕ) (socket : ℕ) (buffer : List ℕ) (addr : ℕ) (interest : Option ℕ) (w : World)
      → IsMade interest w
      → Outcome
          (SendTo.pending socket buffer addr)
          SendTo.taken
          me
          (SendTo.poll kernel me send (SendTo.pending socket buffer addr interest) w)
  unfolding SendTo.poll
  send_to-Outcome (got byte_count) socket buffer addr interest w m =
      polled-Outcome interest w (SendTo.sent kernel me (got byte_count) socket buffer addr interest)
        m (λ v _. sent-Outcome socket buffer v (byte_count == length buffer))
  send_to-Outcome (failed e) socket buffer addr interest w m =
      polled-Outcome interest w (SendTo.sent kernel me (failed e) socket buffer addr interest) m
        (refused-Outcome kernel write_only e (would_block e) interest)

  -- A poll of an accept, whatever `accept` and the calls that register the new stream answer:
  -- either the future is suspended, with its listener as before and an interest of the
  -- registration for which the polling task was the last to register, or its state is taken.
  pub accept-Outcome :
      (calls : Accepted) (listener : ℕ) (interest : Option ℕ) (w : World)
      → IsMade interest w
      → Outcome
          (Accept.pending listener)
          Accept.taken
          me
          (Accept.poll kernel me calls (Accept.pending listener interest) w)
  unfolding Accept.poll
  accept-Outcome calls listener interest w m =
      polled-Outcome interest w
        (Accept.after_accept kernel me calls calls.accepted listener interest) m
        (after_accept-Outcome calls calls.accepted listener interest)
