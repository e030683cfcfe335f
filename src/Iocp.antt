-- ===== src/Iocp.antt =====
-- src/iocp/mod.rs: the completion port. `Overlapped` is the heap cell behind an `OverlappedTask`, with
-- its reference count, together with what Windows still owes it: a completion, or a packet in the
-- port. `A` is what the operation delivers.
pub mod Timeouts
pub mod Posted
pub mod Events
pub mod Net
use complete_io.Base.{
  ℕ, suc, ◌+◌, ◌-◌, ◌==◌, if◌then◌else◌, Bool, true, false, Option, none, some, List, [], ◌∷◌,
  IoError, os, Result, ok, err, panic, Async, ready, not_ready,
}
use complete_io.Iocp.Timeouts.{Duration}

-- What a call of Windows comes back with.
pub data Reply {ℓ} (A : Type ℓ) : Type ℓ where
  got : A → Reply A
  failed : IoError → Reply A

-- What Windows writes to the OVERLAPPED.
pub data Status (A : Type 0) : Type 0 where
  unsubmitted : Status A
  in_flight : Status A  -- STATUS_PENDING
  complete : Reply A → Status A  -- with what WSAGetOverlappedResult reports

-- The calls on the `AtomicTask`.
pub data Call : Type 0 where
  registers : (task : ℕ) → Call
  notifies : Call

pub record Overlapped (A : Type 0) : Type 0 where
  pub status : Status A
  pub count : ℕ  -- the strong count of the `Arc`; at 0 there is no cell
  pub packets : ℕ  -- in the port, not yet dequeued
  pub log : List Call

-- What comes of the system call in the closure of `for_operation`. It succeeds at once (and Windows
-- queues a packet all the same), starts an operation, or fails to submit one.
pub data Submitted (A : Type 0) : Type 0 where
  at_once : A → Submitted A
  started : Submitted A
  refused : IoError → Submitted A

module _ {A : Type 0} where
  -- Before a future has a cell.
  abbrev pub absent : Overlapped A
  absent = record { status = unsubmitted; count = 0; packets = 0; log = [] }

  -- `OverlappedTask::new`, called by the task `me`
  abbrev pub create : ℕ → Overlapped A
  create me = record { status = unsubmitted; count = 1; packets = 0; log = registers me ∷ [] }

  -- `OverlappedTask::register`
  abbrev pub register : ℕ → Overlapped A → Overlapped A
  register me o = record o { log = registers me ∷ o.log }

  -- The `drop` of one `OverlappedTask`.
  abbrev pub drop : Overlapped A → Overlapped A
  drop o = record o { count = o.count - 1 }

  -- `task.clone().for_operation(…)`: the clone is handed to Windows, or dropped with the error.
  unfoldable pub for_operation : Submitted A → Overlapped A → Result (Option A) × Overlapped A
  for_operation (at_once x) o = (
    ok (some x),
    record o { status = complete (got x); count = suc o.count; packets = suc o.packets },
  )
  for_operation started o = (ok none, record o { status = in_flight; count = suc o.count })
  for_operation (refused e) o = (err e, drop (record o { count = suc o.count }))

  -- `OverlappedTask::poll_socket`. (A cell that was not submitted is never polled.)
  unfoldable pub poll_socket : Status A → Result (Async A)
  poll_socket in_flight = ok not_ready
  poll_socket (complete (got x)) = ok (ready x)
  poll_socket (complete (failed e)) = err e
  poll_socket unsubmitted = panic

  -- `OverlappedTask::cancel_socket`, whose caller drops the task it gets back with an error.
  -- CancelIoEx asks for the operation to be cancelled, and it is in flight until it completes.
  unfoldable pub cancel_socket : Overlapped A → Overlapped A
  cancel_socket o = drop o

  -- Windows completes the operation, if the cell has this status, and queues a packet.
  unfoldable pub finish : Status A → Reply A → Overlapped A → Option (Overlapped A)
  finish unsubmitted r o = none
  finish in_flight r o = some (record o { status = complete r; packets = suc o.packets })
  finish (complete _) r o = none

  -- `Inner::poll_iocp` with a packet of an `OverlappedTask`: `Arc::from_raw`, `notify`, and the drop.
  unfoldable pub take_packet : Overlapped A → Option (Overlapped A)
  take_packet o =
      if o.packets == 0
      then none
      else some (drop (record o { packets = o.packets - 1; log = notifies ∷ o.log }))

-- `EventTag`
pub record EventTag : Type 0 where
  pub callback_ptr : ℕ
  pub iocp_id : ℕ

-- `FUTURE_NOTIFY_IOCP_TOKEN`
abbrev pub future_notify_iocp_token : ℕ
future_notify_iocp_token = 1

-- `CompletionStatus`: the token, and the pointer or the data in its place.
pub record Packet : Type 0 where
  pub token : ℕ
  pub overlapped : ℕ

-- `post_custom_event`, on the port `iocp_id`, with the outcome of `post`. It gives the packet.
unfoldable pub post_custom_event : ℕ → Reply (Unit {0}) → EventTag → ℕ → Result Packet
post_custom_event iocp_id (got _) event data_word =
    if event.iocp_id == iocp_id
    then ok (record { token = event.callback_ptr; overlapped = data_word })
    else panic
post_custom_event iocp_id (failed e) event data_word =
    if event.iocp_id == iocp_id then err e else panic

-- What GetQueuedCompletionStatusEx comes back with, for one entry.
pub data Dequeued : Type 0 where
  packet : Packet → Dequeued
  wait_timeout : Dequeued
  wait_io_completion : Dequeued
  other_error : ℕ → Dequeued

-- What `poll_iocp` does with a packet.
pub data Action : Type 0 where
  notify_task : (overlapped : ℕ) → Action
  callback : (pointer : ℕ) → EventTag → (data_word : ℕ) → Action

unfoldable pub dispatch : ℕ → Packet → Action
dispatch iocp_id p =
    if p.token == future_notify_iocp_token
    then notify_task p.overlapped
    else callback p.token (record { callback_ptr = p.token; iocp_id = iocp_id }) p.overlapped

-- `WAIT_TIMEOUT`
abbrev pub timeout_error : ℕ
timeout_error = 258

-- `Inner::poll_iocp`, after the call: the count, and what was done on the way.
unfoldable pub poll_iocp : ℕ → Option Duration → Dequeued → Result ℕ × List Action
unfolding dispatch
poll_iocp iocp_id timeout (packet p) = (ok 1, dispatch iocp_id p ∷ [])
poll_iocp iocp_id (some d) wait_timeout = (ok 0, [])
poll_iocp iocp_id none wait_timeout = (err (os timeout_error), [])
poll_iocp iocp_id timeout wait_io_completion = (panic, [])  -- `unimplemented!()`
poll_iocp iocp_id timeout (other_error e) = (err (os e), [])
