-- ===== src/Epoll/Net/Connect.antt =====
-- src/epoll/net.rs: `TcpStream::connect`, `connect_with` and the future `Connect`.
use complete_io.Base.{
  ℕ, Bool, false, ◌||◌, ◌==◌, Option, none, if◌then◌else◌, IoError, os, write_zero, einprogress,
  Result, ok, err, panic, ready, not_ready, would_block,
}
use complete_io.Epoll.Mask.{write_only}
use complete_io.Epoll.Interests.{World}
use complete_io.Epoll.Net.{Reply, got, failed, Polled, still_waiting, attempt, from_socket, blocked}

pub data ConnectState : Type 0 where
  pending : (stream addr : ℕ) → Option ℕ → ConnectState
  broken : IoError → ConnectState  -- `ConnectState::Error`
  taken : ConnectState  -- `ConnectState::None`

-- `err.raw_os_error() == Some(libc::EINPROGRESS)`
abbrev pub in_progress : IoError → Bool
in_progress (os n) = n == einprogress
in_progress write_zero = false

-- `TcpStream::connect_with`: the state and, if there is a stream, its registration.
abbrev registered_stream : ℕ → ℕ → Result World → ConnectState × Option World
registered_stream stream addr (ok w) = (pending stream addr none, Option.some w)
registered_stream stream addr (err e) = (broken e, none)
registered_stream stream addr panic = (taken, none)

unfoldable pub connect_with :
    ℕ → ℕ → Option IoError → Reply (Unit {0}) → ConnectState × Option World
unfolding from_socket
connect_with stream addr ctl_add set_nonblocking =
    registered_stream stream addr (from_socket ctl_add set_nonblocking)

-- The builder of `TcpStream::connect`: `new_v4` or `new_v6`, and `to_tcp_stream`.
abbrev built : Reply (Unit {0}) → Reply ℕ → Reply ℕ
built (got _) to_tcp_stream = to_tcp_stream
built (failed e) to_tcp_stream = failed e

abbrev connect_built : Reply ℕ → ℕ → Option IoError → Reply (Unit {0}) → ConnectState × Option World
connect_built (got stream) addr ctl_add set_nonblocking =
    connect_with stream addr ctl_add set_nonblocking
connect_built (failed e) addr ctl_add set_nonblocking = (broken e, none)

-- `TcpStream::connect`
unfoldable pub connect :
    (is_ipv4 : Bool) (new_v4 new_v6 : Reply (Unit {0})) (to_tcp_stream : Reply ℕ)
    → ℕ
    → Option IoError
    → Reply (Unit {0})
    → ConnectState × Option World
unfolding connect_with
connect is_ipv4 new_v4 new_v6 to_tcp_stream addr ctl_add set_nonblocking =
    connect_built (built (if is_ipv4 then new_v4 else new_v6) to_tcp_stream) addr ctl_add
      set_nonblocking

module _ (kernel : ℕ → Option IoError) (me : ℕ) where
  pub after_connect : Reply (Unit {0}) → ℕ → ℕ → Option ℕ → World → Polled ConnectState ℕ
  after_connect (got _) stream addr interest w = record {
    state = taken;
    result = ok (ready stream);
    world = w;
  }
  after_connect (failed e) stream addr interest w =
      if would_block e || in_progress e
      then blocked kernel me write_only (pending stream addr) taken interest w
      else record { state = taken; result = err e; world = w }

  -- `Connect::poll`
  unfoldable pub poll : Reply (Unit {0}) → ConnectState → World → Polled ConnectState ℕ
  unfolding after_connect
  poll connected (pending stream addr interest) w =
      let (waiting, v) = still_waiting me interest w in
      if waiting
      then record { state = pending stream addr interest; result = ok not_ready; world = v }
      else after_connect connected stream addr interest (attempt v)
  poll connected (broken e) w = record { state = taken; result = err e; world = w }
  poll connected taken w = record { state = taken; result = panic; world = w }
