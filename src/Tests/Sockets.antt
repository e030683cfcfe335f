-- ===== src/Tests/Sockets.antt =====
-- src/epoll/net.rs: futures on descriptor 3, polled by task 7.
use complete_io.Base.{
  ℕ, refl, true, false, Option, none, some, [], ◌∷◌, IoError, os, arith, if◌then◌else◌, ◌==◌,
  eagain,
}
use complete_io.Bytes.{BytesMut}
use complete_io.Epoll.Mask.{read_only}
use complete_io.Epoll.Interests.{World, Call, fresh, push, register, handle_event}
use complete_io.Epoll.Interests.Runs.{handles, reports, run}
use complete_io.Epoll.Interests.Tracked.{IsTracked}
use complete_io.Epoll.Net.{got, failed, still_waiting, blocked}
use complete_io.Epoll.Net.Accept
use complete_io.Epoll.Net.Accept.{Accepted}
use complete_io.Epoll.Net.Connect
use complete_io.Epoll.Net.TcpRead
use complete_io.Epoll.Net.TcpWrite
use complete_io.Epoll.Net.RecvFrom
use complete_io.Epoll.Net.SendTo
use complete_io.Epoll.Net.Waiting.{Outcome}
use complete_io.Epoll.Net.Polls.{socket-Outcome}
use complete_io.Epoll.Net.Sleep.{Asleep, accept_beaten_sleeps}

abbrev willing : ℕ → Option IoError
willing n = none

-- Eight bytes, three of them in use.
abbrev buffer : BytesMut
buffer = record { memory = 1 ∷ 2 ∷ 3 ∷ 4 ∷ 5 ∷ 6 ∷ 7 ∷ 8 ∷ []; len = 3 }

-- Interest 0 has been made by task 7, and has fired.
abbrev woken : World
woken = record (push 7 read_only fresh) {
  interests = [];
  fired = λ i. if i == 0 then true else false;
}

woken-IsTracked : IsTracked woken
woken-IsTracked i = ground arith

-- Task 7 has tried again, and then the kernel has reported that the descriptor is readable.
abbrev later : World
later = record woken {
  log = Call.delivered read_only ∷ Call.registered 0 7 ∷ Call.attempted ∷ woken.log;
}

abbrev beaten : Accepted
beaten = record { accepted = failed (os eagain); ctl_add = none; set_nonblocking = got tt }

-- `recv` would block, `recv_from` gives a datagram, `send` takes two bytes, `send_to` none, the
-- connection is in progress (EINPROGRESS), and another process was first to accept.
socket-Outcome_example :
    Outcome
      (TcpRead.pending 3 buffer)
      TcpRead.taken
      7
      (TcpRead.poll willing 7 (failed (os eagain)) (TcpRead.pending 3 buffer (some 0)) woken)
    × Outcome
        (TcpWrite.pending 3 (1 ∷ 2 ∷ []))
        TcpWrite.taken
        7
        (TcpWrite.poll willing 7 (got 2) (TcpWrite.pending 3 (1 ∷ 2 ∷ []) (some 0)) woken)
    × Outcome
        (RecvFrom.pending 3 buffer)
        RecvFrom.taken
        7
        (RecvFrom.poll willing 7 (got (9 ∷ [], 80)) (RecvFrom.pending 3 buffer (some 0)) woken)
    × Outcome
        (SendTo.pending 3 (1 ∷ 2 ∷ []) 80)
        SendTo.taken
        7
        (SendTo.poll willing 7 (got 0) (SendTo.pending 3 (1 ∷ 2 ∷ []) 80 (some 0)) woken)
    × Outcome
        (Connect.pending 3 80)
        Connect.taken
        7
        (Connect.poll willing 7 (failed (os 115)) (Connect.pending 3 80 (some 0)) woken)
    × Outcome
        (Accept.pending 3)
        Accept.taken
        7
        (Accept.poll willing 7 beaten (Accept.pending 3 (some 0)) woken)
socket-Outcome_example =
    socket-Outcome willing 7 (some 0) woken (failed (os eagain)) (got (9 ∷ [], 80)) (got 2) (got 0)
      (failed (os 115)) beaten 3 80 buffer (1 ∷ 2 ∷ []) (omega arith)

accept_beaten_sleeps_example :
    Asleep
      (Accept.pending 3 (some 0))
      0
      (Accept.poll willing 7 beaten (Accept.pending 3 (some 0)) woken)
      later
unfolding run Accept.poll register still_waiting blocked handle_event
accept_beaten_sleeps_example =
    accept_beaten_sleeps willing 7 0 woken beaten (os eagain) 3
      (reports read_only ∷ handles read_only ∷ []) later woken-IsTracked refl refl refl refl
