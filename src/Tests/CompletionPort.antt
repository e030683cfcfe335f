-- ===== src/Tests/CompletionPort.antt =====
-- Runs of the completion port, its futures and the timeouts.
use complete_io.Base.{Perm, ◌++◌, ℕ, arith, ◌≡◌, ◌+◌, refl, false, some, none, List, [], ◌∷◌}
use complete_io.Bytes.{BytesMut}
use complete_io.Iocp.{Overlapped, started, got, in_flight, create, EventTag}
use complete_io.Iocp.Timeouts.{Duration, timeout_ms, negsuc}
use complete_io.Iocp.Timeouts.Exact.{timeout_ms_endless}
use complete_io.Iocp.Events
use complete_io.Iocp.Events.{Delivery, Port, new_port}
use complete_io.Iocp.Events.Drained.{dequeue_each, handle_each, port_drains}
use complete_io.Iocp.Events.Order.{pending}
use complete_io.Iocp.Net.Accept
use complete_io.Iocp.Net.Accept.{Listener, Calls, v4_only}
use complete_io.Iocp.Net.TcpRead
use complete_io.Iocp.Net.Connect
use complete_io.Iocp.Net.TcpWrite
use complete_io.Iocp.Net.RecvFrom
use complete_io.Iocp.Net.SendTo
use complete_io.Iocp.Net.Polls.{Outcomes, iocp_socket-Outcome}
use complete_io.Iocp.Net.Counts.{flights}
use complete_io.Iocp.Net.Lifetime.{Event, polls, drops, finishes, turns, Life, unborn, run}
use complete_io.Iocp.Net.Futures
use complete_io.Iocp.Net.Operations.{tcp_read, socket_operation_count}

-- An operation that task 7 has started.
abbrev flying : {A : Type 0} → Overlapped A
flying = record (create 7) { status = in_flight; count = 2 }

abbrev four_bytes : BytesMut
four_bytes = record { memory = 0 ∷ 0 ∷ 0 ∷ 0 ∷ []; len = 4 }

abbrev listener : Listener
listener = record { std = 2; ip_version = v4_only }

abbrev calls : Calls
calls = record {
  new_v4 = got 9;
  new_v6 = got 10;
  accept_complete = got tt;
  add_socket = got tt;
  parse = got (some 80);
}

-- Task 8 polls each future: the calls of a new one are under way, and so is the operation of an old
-- one, that task 7 has started.
iocp_socket-Outcome_example :
    Outcomes
      (TcpRead.pending 9 four_bytes)
      TcpRead.taken
      8
      (TcpRead.poll 8 started (TcpRead.initial 9 four_bytes) flying)
      (TcpRead.poll 8 started (TcpRead.pending 9 four_bytes) flying)
    × Outcomes
        (TcpWrite.pending 9 (1 ∷ []))
        TcpWrite.taken
        8
        (TcpWrite.poll 8 started (TcpWrite.initial 9 (1 ∷ [])) flying)
        (TcpWrite.poll 8 started (TcpWrite.pending 9 (1 ∷ [])) flying)
    × Outcomes
        (RecvFrom.pending 9 four_bytes)
        RecvFrom.taken
        8
        (RecvFrom.poll 8 started (RecvFrom.initial 9 four_bytes) flying)
        (RecvFrom.poll 8 started (RecvFrom.pending 9 four_bytes) flying)
    × Outcomes
        (SendTo.pending 9 (1 ∷ []))
        SendTo.taken
        8
        (SendTo.poll 8 started (SendTo.initial 9 (1 ∷ []) 80) flying)
        (SendTo.poll 8 started (SendTo.pending 9 (1 ∷ [])) flying)
    × Outcomes
        (Connect.pending 9)
        Connect.taken
        8
        (Connect.poll (got tt) 8 started (Connect.initial 9 80) flying)
        (Connect.poll (got tt) 8 started (Connect.pending 9) flying)
    × Outcomes
        (Accept.pending_single_stack listener 9)
        Accept.taken
        8
        (Accept.poll calls 8 started (Accept.initial listener) flying)
        (Accept.poll calls 8 started (Accept.pending_single_stack listener 9) flying)
iocp_socket-Outcome_example =
    iocp_socket-Outcome 8 started started started started started started (got tt) calls listener 9
      80 four_bytes (1 ∷ []) flying flying flying flying refl

-- A read is started, completes, is polled, and its packet is taken: no handle is left.
abbrev whole_read : List (Event (Unit {0}) (List ℕ))
whole_read = polls tt 7 started ∷ finishes (got (5 ∷ [])) ∷ polls tt 8 started ∷ turns ∷ []

abbrev dropped_read : List (Event (Unit {0}) (List ℕ))
dropped_read = polls tt 7 started ∷ drops (got tt) ∷ []

abbrev dropped : Life (Futures.tcp_read 3 four_bytes)
dropped = record { state = TcpRead.taken; task = record flying { count = 1 } }

dropped-run :
    run (Futures.tcp_read 3 four_bytes) dropped_read (unborn (Futures.tcp_read 3 four_bytes))
    ≡ some dropped
unfolding run TcpRead.poll TcpRead.release
dropped-run = refl

socket_operation_count_example :
    dropped.task.count ≡ 0 + (dropped.task.packets + flights dropped.task.status)
socket_operation_count_example =
    socket_operation_count (tcp_read 3 four_bytes) dropped_read dropped dropped-run

abbrev tag : EventTag
tag = record { callback_ptr = 4096; iocp_id = 12 }

-- Thirty days.
abbrev a_month : Duration
a_month = record { secs = 2592000; nanos = 0 }

timeout_ms_endless_example : (n : ℕ) × (timeout_ms (some a_month) ≡ negsuc n)
timeout_ms_endless_example = timeout_ms_endless a_month (omega arith) (omega arith)

-- A handler at 4096, two posts to it with a completion between them; two threads have
-- taken a packet, and the second is done.
abbrev port_events : List Events.Event
port_events =
    Events.makes 4096 1
    ∷ Events.posts tag 55 (got tt)
    ∷ Events.completes 8192
    ∷ Events.posts tag 66 (got tt)
    ∷ Events.dequeues
    ∷ Events.dequeues
    ∷ Events.handles 1 none
    ∷ []

abbrev called : ℕ → Delivery
called d = record { handler = 1; tag = tag; data_word = d }

abbrev half_handled : Port
half_handled = record {
  iocp_id = 12;
  event_table = (4096, 1) ∷ [];
  packets = record { token = 4096; overlapped = 66 } ∷ [];
  running = record { token = 4096; overlapped = 55 } ∷ [];
  taken = record { token = 4096; overlapped = 55 } ∷ record { token = 1; overlapped = 8192 } ∷ [];
  posted = called 55 ∷ called 66 ∷ [];
  handled = [];
  completed = 8192 ∷ [];
  notified = 8192 ∷ [];
  wild = false;
}

half_handled-run : Events.run port_events (new_port 12) ≡ some half_handled
unfolding Events.run
half_handled-run = refl

port_drains_example :
    (u : Port) × (Events.run
        (dequeue_each half_handled.packets
          ++ handle_each none (half_handled.running ++ half_handled.packets))
        half_handled
      ≡ some u)
    × (pending u.iocp_id u.event_table u.taken ≡ called 55 ∷ called 66 ∷ [])
    × Perm u.handled (called 55 ∷ called 66 ∷ [])
    × Perm u.notified (8192 ∷ [])
    × (u.wild ≡ false)
port_drains_example = port_drains none 12 port_events half_handled half_handled-run
