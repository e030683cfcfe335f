-- ===== src/Iocp/Net/Outcomes.antt =====
-- src/iocp/net.rs: each `poll` suspends its future with what it holds and with the polling task as the
-- last one that registered, or finishes it.
use complete_io.Base.{ℕ, ◌≡◌, ◌≢◌, refl, Option, List, Result, ok, err, panic, not_ready, ◌∷◌}
use complete_io.Bytes.{BytesMut}
use complete_io.Iocp.{
  Overlapped, Submitted, at_once, started, refused, Status, unsubmitted, in_flight, complete, Reply,
  got, failed, Call, registers, poll_socket, register,
}
use complete_io.Iocp.Net.{Polled, as_ready, initial_poll, resumed, pending_poll}
use complete_io.Iocp.Net.Accept
use complete_io.Iocp.Net.Accept.{Calls, Listener}
use complete_io.Iocp.Net.Connect
use complete_io.Iocp.Net.TcpRead
use complete_io.Iocp.Net.TcpWrite
use complete_io.Iocp.Net.RecvFrom
use complete_io.Iocp.Net.SendTo

-- A poll either suspends the future on an operation in flight, whose packet will notify the task
-- that polled, or takes its state for good.
pub data Outcome {S T A : Type 0} (pending gone : S) (me : ℕ) (p : Polled S T A) : Type 0 where
  suspended :
      (log : List Call)
      → p.result ≡ ok not_ready
      → p.state ≡ pending
      → p.task.status ≡ in_flight
      → p.task.log ≡ registers me ∷ log
      → Outcome pending gone me p
  finished : p.result ≢ ok not_ready → p.state ≡ gone → Outcome pending gone me p

module _ {S T A : Type 0} (deliver : A → Result T) (pending gone : S) (me : ℕ) where
  ready_or_error : (r : Result T) → as_ready r ≢ ok not_ready
  ready_or_error (ok x) q = cc
  ready_or_error (err e) q = cc
  ready_or_error panic q = cc

  initial-Outcome :
      (call : Submitted A) → Outcome pending gone me (initial_poll deliver pending gone me call)
  unfolding initial_poll
  initial-Outcome (at_once x) = finished (ready_or_error (deliver x)) refl
  initial-Outcome started = suspended _ refl refl refl refl
  initial-Outcome (refused e) = finished (λ q. cc) refl

  resumed-Outcome :
      (s : Status A) (o : Overlapped A)
      → o.status ≡ s
      → Outcome pending gone me (resumed deliver pending gone (poll_socket s) (register me o))
  unfolding poll_socket resumed
  resumed-Outcome unsubmitted o q = finished (λ e. cc) refl
  resumed-Outcome in_flight o q = suspended _ refl refl q refl
  resumed-Outcome (complete (got x)) o q = finished (ready_or_error (deliver x)) refl
  resumed-Outcome (complete (failed e)) o q = finished (λ f. cc) refl

  pending-Outcome :
      (o : Overlapped A) → Outcome pending gone me (pending_poll deliver pending gone me o)
  unfolding pending_poll
  pending-Outcome o = resumed-Outcome o.status o refl

-- A poll of a new or a pending read, whatever Windows answers: either the future is suspended with its stream
-- and its buffer on an operation in flight, and the polling task is the last one that registered, or
-- its state is taken.
pub iocp_tcp_read-Outcome :
    (me : ℕ) (call : Submitted (List ℕ)) (stream : ℕ) (buffer : BytesMut) (o : Overlapped (List ℕ))
    → Outcome
        (TcpRead.pending stream buffer)
        TcpRead.taken
        me
        (TcpRead.poll me call (TcpRead.initial stream buffer) o)
      × Outcome
          (TcpRead.pending stream buffer)
          TcpRead.taken
          me
          (TcpRead.poll me call (TcpRead.pending stream buffer) o)
unfolding TcpRead.poll
iocp_tcp_read-Outcome me call stream buffer o =
    (initial-Outcome _ _ _ me call, pending-Outcome _ _ _ me o)

-- A poll of a new or a pending write, whatever Windows answers: either the future is suspended with its stream
-- and its bytes on an operation in flight, and the polling task is the last one that registered, or
-- its state is taken.
pub iocp_tcp_write-Outcome :
    (me : ℕ) (call : Submitted ℕ) (stream : ℕ) (buffer : List ℕ) (o : Overlapped ℕ)
    → Outcome
        (TcpWrite.pending stream buffer)
        TcpWrite.taken
        me
        (TcpWrite.poll me call (TcpWrite.initial stream buffer) o)
      × Outcome
          (TcpWrite.pending stream buffer)
          TcpWrite.taken
          me
          (TcpWrite.poll me call (TcpWrite.pending stream buffer) o)
unfolding TcpWrite.poll
iocp_tcp_write-Outcome me call stream buffer o =
    (initial-Outcome _ _ _ me call, pending-Outcome _ _ _ me o)

-- A poll of a new or a pending receive, whatever Windows answers: either the future is suspended with its
-- socket and its buffer on an operation in flight, and the polling task is the last one that
-- registered, or its state is taken.
pub iocp_recv_from-Outcome :
    (me : ℕ) (call : Submitted (List ℕ × Option ℕ)) (socket : ℕ) (buffer : BytesMut)
    (o : Overlapped (List ℕ × Option ℕ))
    → Outcome
        (RecvFrom.pending socket buffer)
        RecvFrom.taken
        me
        (RecvFrom.poll me call (RecvFrom.initial socket buffer) o)
      × Outcome
          (RecvFrom.pending socket buffer)
          RecvFrom.taken
          me
          (RecvFrom.poll me call (RecvFrom.pending socket buffer) o)
unfolding RecvFrom.poll
iocp_recv_from-Outcome me call socket buffer o =
    (initial-Outcome _ _ _ me call, pending-Outcome _ _ _ me o)

-- A poll of a new or a pending send, whatever Windows answers: either the future is suspended with its socket
-- and its bytes on an operation in flight, and the polling task is the last one that registered, or
-- its state is taken.
pub iocp_send_to-Outcome :
    (me : ℕ) (call : Submitted ℕ) (socket : ℕ) (buffer : List ℕ) (addr : ℕ) (o : Overlapped ℕ)
    → Outcome
        (SendTo.pending socket buffer)
        SendTo.taken
        me
        (SendTo.poll me call (SendTo.initial socket buffer addr) o)
      × Outcome
          (SendTo.pending socket buffer)
          SendTo.taken
          me
          (SendTo.poll me call (SendTo.pending socket buffer) o)
unfolding SendTo.poll
iocp_send_to-Outcome me call socket buffer addr o =
    (initial-Outcome _ _ _ me call, pending-Outcome _ _ _ me o)

-- A poll of a new or a pending connect, whatever Windows and `connect_complete` answer: either the future is
-- suspended with its stream on an operation in flight, and the polling task is the last one that
-- registered, or its state is taken.
pub iocp_connect-Outcome :
    (completed : Reply (Unit {0})) (me : ℕ) (call : Submitted (Unit {0})) (stream addr : ℕ)
    (o : Overlapped (Unit {0}))
    → Outcome
        (Connect.pending stream)
        Connect.taken
        me
        (Connect.poll completed me call (Connect.initial stream addr) o)
      × Outcome
          (Connect.pending stream)
          Connect.taken
          me
          (Connect.poll completed me call (Connect.pending stream) o)
unfolding Connect.poll
iocp_connect-Outcome completed me call stream addr o =
    (initial-Outcome _ _ _ me call, pending-Outcome _ _ _ me o)

-- A poll of a new or a pending accept, whatever Windows answers: either the future is suspended with its
-- listener and the new socket, of the family of the listener, on an operation in flight, and the
-- polling task is the last one that registered, or its state is taken.
pub iocp_accept-Outcome :
    (calls : Calls) (me : ℕ) (call : Submitted (Unit {0})) (listener : Listener) (stream : ℕ)
    (o : Overlapped (Unit {0}))
    → Accept.acceptee listener.ip_version calls ≡ got stream
    → Outcome
        (Accept.pending_single_stack listener stream)
        Accept.taken
        me
        (Accept.poll calls me call (Accept.initial listener) o)
      × Outcome
          (Accept.pending_single_stack listener stream)
          Accept.taken
          me
          (Accept.poll calls me call (Accept.pending_single_stack listener stream) o)
unfolding Accept.poll
iocp_accept-Outcome calls me call listener stream o q =
    (rw q (initial-Outcome _ _ _ me call), pending-Outcome _ _ _ me o)
