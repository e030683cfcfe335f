-- ===== src/Iocp/Net/Accept.antt =====
-- src/iocp/net.rs: `TcpListener::from_listener`, `accept` and the future `Accept`, which has no `Drop`
-- of its own. The value is the accepted stream and the peer's address.
use complete_io.Base.{
  ℕ, Bool, true, false, Option, none, some, ◌==◌, if◌then◌else◌, Result, ok, err, panic,
}
use complete_io.Iocp.{Overlapped, Submitted, Reply, got, failed, drop}
use complete_io.Iocp.Net.{Polled, initial_poll, pending_poll}

pub data IpVersion : Type 0 where
  v4_only : IpVersion
  v6_only : IpVersion
  dual_stack : IpVersion

-- `_TcpListener`
pub record Listener : Type 0 where
  pub std : ℕ
  pub ip_version : IpVersion

abbrev pub listens : ℕ → Reply ℕ → Result Listener
listens std (got v6_only_option) =
    ok (record { std = std; ip_version = if v6_only_option == 0 then dual_stack else v6_only })
listens std (failed e) = err e

-- `TcpListener::from_listener`, with the outcomes of `add_socket`, of `local_addr` (is it IPv4?) and
-- of `getsockopt` for IPV6_V6ONLY.
unfoldable pub from_listener : Reply (Unit {0}) → Reply Bool → Reply ℕ → ℕ → Result Listener
from_listener (failed e) local_addr option std = err e
from_listener (got _) (failed e) option std = err e
from_listener (got _) (got true) option std = ok (record { std = std; ip_version = v4_only })
from_listener (got _) (got false) option std = listens std option

pub data AcceptState : Type 0 where
  initial : Listener → AcceptState
  pending_single_stack : Listener → (stream : ℕ) → AcceptState
  taken : AcceptState  -- `AcceptState::None`

-- `TcpListener::accept`
pub accept : Listener → AcceptState
accept listener = initial listener

-- The outcomes of the calls a poll may make: `TcpBuilder::new_v4` and `new_v6`, those that make the
-- accepted stream one of the port, and `addrs_buf.parse` with its `remote`.
pub record Calls : Type 0 where
  pub new_v4 : Reply ℕ
  pub new_v6 : Reply ℕ
  pub accept_complete : Reply (Unit {0})
  pub add_socket : Reply (Unit {0})
  pub parse : Reply (Option ℕ)

unfoldable pub addressed : Reply (Option ℕ) → ℕ → Result (ℕ × ℕ)
addressed (failed e) stream = err e
addressed (got none) stream = panic
addressed (got (some addr)) stream = ok (stream, addr)

-- `TcpStream::from_accepted_stream`, and the address.
unfoldable pub from_accepted_stream :
    Reply (Unit {0}) → Reply (Unit {0}) → Reply (Option ℕ) → ℕ → Unit {0} → Result (ℕ × ℕ)
unfolding addressed
from_accepted_stream (failed e) add_socket parse stream _ = err e
from_accepted_stream (got _) (failed e) parse stream _ = err e
from_accepted_stream (got _) (got _) parse stream _ = addressed parse stream

abbrev pub deliver : Calls → ℕ → Unit {0} → Result (ℕ × ℕ)
deliver calls stream x =
    from_accepted_stream calls.accept_complete calls.add_socket calls.parse stream x

abbrev pub acceptee : IpVersion → Calls → Reply ℕ
acceptee v4_only calls = calls.new_v4
acceptee v6_only calls = calls.new_v6
acceptee dual_stack calls = calls.new_v6

-- `Accept::initiate_v4` and `initiate_v6`, with the new socket.
unfoldable pub initiate :
    Calls
    → ℕ
    → Submitted (Unit {0})
    → Listener
    → Reply ℕ
    → Overlapped (Unit {0})
    → Polled AcceptState (ℕ × ℕ) (Unit {0})
unfolding initial_poll from_accepted_stream
initiate calls me call listener (failed e) o = record { state = taken; result = err e; task = o }
initiate calls me call listener (got stream) o =
    initial_poll (deliver calls stream) (pending_single_stack listener stream) taken me call

-- `Accept::poll`
unfoldable pub poll :
    Calls
    → ℕ
    → Submitted (Unit {0})
    → AcceptState
    → Overlapped (Unit {0})
    → Polled AcceptState (ℕ × ℕ) (Unit {0})
unfolding initiate pending_poll from_accepted_stream
poll calls me call (initial listener) o =
    initiate calls me call listener (acceptee listener.ip_version calls) o
poll calls me call (pending_single_stack listener stream) o =
    pending_poll (deliver calls stream) (pending_single_stack listener stream) taken me o
poll calls me call taken o = record { state = taken; result = panic; task = o }

-- The future goes, and its handle with it.
unfoldable pub release : AcceptState → Overlapped (Unit {0}) → Overlapped (Unit {0})
release (initial listener) o = o
release (pending_single_stack listener stream) o = drop o
release taken o = o
