-- ===== src/Iocp/Net.antt =====
-- src/iocp/net.rs: what the futures of a socket share. A future is a state machine with at most one
-- overlapped operation; `Polled` is what a call of its `poll` leaves. The outcome of the system call
-- that a `poll` may make is its argument.
pub mod Outcomes
pub mod Polls
pub mod TcpRead
pub mod TcpWrite
pub mod RecvFrom
pub mod SendTo
pub mod Connect
pub mod Accept
pub mod Transfer
pub mod Lifetime
pub mod Operations
pub mod Counts
pub mod Futures
pub mod Sockets
use complete_io.Base.{
  ℕ, Bool, ◌≤◌, ◌+◌, Option, none, some, IoError, Result, ok, err, panic, Async, ready, not_ready,
  if◌then◌else◌, ltb, ◌&&◌, not,
}
use complete_io.Bytes.{BytesMut, contents}
use complete_io.Iocp.{
  Overlapped, Submitted, Reply, got, failed, for_operation, create, register, drop, poll_socket,
  cancel_socket,
}

pub record Polled (S T A : Type 0) : Type 0 where
  pub state : S
  pub result : Result (Async T)
  pub task : Overlapped A

-- A `BytesMut` and a `Bytes` where they stand in memory: the address of the struct, its size, and
-- the address of the data, which may be inside it. `allocate` is the address that a copy gets.
pub record Place : Type 0 where
  pub struct_ptr : ℕ
  pub size : ℕ
  pub data_ptr : ℕ

abbrev pub is_inline : Place → Bool
is_inline b = not (ltb b.data_ptr b.struct_ptr) && ltb b.data_ptr (b.struct_ptr + b.size)

-- `ensure_bytes_safe` and `ensure_bytesmut_safe`
unfoldable pub ensure_safe : ℕ → Place → Place
ensure_safe allocated b = if is_inline b then record b { data_ptr = allocated } else b

-- What becomes of a buffer when its future is dropped: it is freed, or leaked by `mem::forget`.
pub data Fate : Type 0 where
  freed : Fate
  leaked : Fate

-- The `Drop` of a future whose operation is pending, with the outcome of CancelIoEx.
unfoldable pub cancelled : {A : Type 0} → Reply (Unit {0}) → Overlapped A → Fate × Overlapped A
unfolding cancel_socket
cancelled (got _) o = (freed, cancel_socket o)
cancelled (failed e) o = (leaked, cancel_socket o)

abbrev pub as_ready : {T : Type 0} → Result T → Result (Async T)
as_ready (ok x) = ok (ready x)
as_ready (err e) = err e
as_ready panic = panic

module _ {S T A : Type 0} (deliver : A → Result T) (pending gone : S) where
  -- `Initial`, after `for_operation`. The handle `task` moves into the state, or goes.
  unfoldable pub initiated : Result (Option A) × Overlapped A → Polled S T A
  initiated (ok (some x), o) = record { state = gone; result = as_ready (deliver x); task = drop o }
  initiated (ok none, o) = record { state = pending; result = ok not_ready; task = o }
  initiated (err e, o) = record { state = gone; result = err e; task = drop o }
  initiated (panic, o) = record { state = gone; result = panic; task = drop o }

  -- `Initial`: a new task, and the operation.
  unfoldable pub initial_poll : ℕ → Submitted A → Polled S T A
  unfolding for_operation initiated
  initial_poll me call = initiated (for_operation call (create me))

  unfoldable pub resumed : Result (Async A) → Overlapped A → Polled S T A
  resumed (ok (ready x)) o = record { state = gone; result = as_ready (deliver x); task = drop o }
  resumed (ok not_ready) o = record { state = pending; result = ok not_ready; task = o }
  resumed (err e) o = record { state = gone; result = err e; task = drop o }
  resumed panic o = record { state = gone; result = panic; task = drop o }

  -- `Pending`: `task.register()`, and `task.poll_socket(…)`.
  unfoldable pub pending_poll : ℕ → Overlapped A → Polled S T A
  unfolding poll_socket resumed
  pending_poll me o = resumed (poll_socket o.status) (register me o)
