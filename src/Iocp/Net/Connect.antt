-- ===== src/Iocp/Net/Connect.antt =====
-- src/iocp/net.rs: `TcpStream::connect` and the future `Connect`, which has no `Drop` of its own.
use complete_io.Base.{ℕ, Bool, IoError, Result, ok, err, panic}
use complete_io.Iocp.{Overlapped, Submitted, Reply, got, failed, drop}
use complete_io.Iocp.Net.{Polled, initial_poll, pending_poll}

pub data ConnectState : Type 0 where
  initial : (stream addr : ℕ) → ConnectState
  pending : (stream : ℕ) → ConnectState
  error : IoError → ConnectState
  taken : ConnectState  -- `ConnectState::None`

-- The outcomes of the calls that make a bound socket: `new_v4` or `new_v6`, `bind`, `to_tcp_stream`
-- and `add_socket`.
pub record Calls : Type 0 where
  pub new : Reply (Unit {0})
  pub bind : Reply (Unit {0})
  pub to_tcp_stream : Reply ℕ
  pub add_socket : Reply (Unit {0})

unfoldable pub bound :
    ℕ → Reply (Unit {0}) → Reply (Unit {0}) → Reply ℕ → Reply (Unit {0}) → ConnectState
bound addr (failed e) bind to_tcp_stream add_socket = error e
bound addr (got _) (failed e) to_tcp_stream add_socket = error e
bound addr (got _) (got _) (failed e) add_socket = error e
bound addr (got _) (got _) (got stream) (failed e) = error e
bound addr (got _) (got _) (got stream) (got _) = initial stream addr

-- `TcpStream::connect`, with the calls for each family of addresses.
unfoldable pub connect : (Bool → Calls) → (is_ipv4 : Bool) → ℕ → ConnectState
unfolding bound
connect calls is_ipv4 addr =
    let c = calls is_ipv4 in bound addr c.new c.bind c.to_tcp_stream c.add_socket

-- `TcpStream::from_connected_stream`, with the outcome of `connect_complete`.
unfoldable pub from_connected_stream : Reply (Unit {0}) → ℕ → Unit {0} → Result ℕ
from_connected_stream (got _) stream _ = ok stream
from_connected_stream (failed e) stream _ = err e

-- `Connect::poll`
unfoldable pub poll :
    Reply (Unit {0})
    → ℕ
    → Submitted (Unit {0})
    → ConnectState
    → Overlapped (Unit {0})
    → Polled ConnectState ℕ (Unit {0})
unfolding initial_poll pending_poll from_connected_stream
poll completed me call (initial stream addr) o =
    initial_poll (from_connected_stream completed stream) (pending stream) taken me call
poll completed me call (pending stream) o =
    pending_poll (from_connected_stream completed stream) (pending stream) taken me o
poll completed me call (error e) o = record { state = taken; result = err e; task = o }
poll completed me call taken o = record { state = taken; result = panic; task = o }

-- The future goes, and its handle with it.
unfoldable pub release : ConnectState → Overlapped (Unit {0}) → Overlapped (Unit {0})
release (initial stream addr) o = o
release (pending stream) o = drop o
release (error e) o = o
release taken o = o
