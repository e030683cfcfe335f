-- ===== src/Epoll/Net/TcpRead.antt =====
-- src/epoll/net.rs: `TcpStream::read` and the future `TcpRead`.
use complete_io.Base.{
  ℕ, Option, none, List, length, if◌then◌else◌, IoError, ok, err, panic, ready, not_ready,
  would_block,
}
use complete_io.Bytes.{BytesMut, receive}
use complete_io.Epoll.Mask.{read_only}
use complete_io.Epoll.Interests.{World}
use complete_io.Epoll.Net.{Reply, got, failed, Polled, still_waiting, attempt, blocked}

pub data TcpReadState : Type 0 where
  pending : (stream : ℕ) → BytesMut → Option ℕ → TcpReadState
  taken : TcpReadState  -- `TcpReadState::None`

-- `AsyncRead::read`
abbrev pub read : ℕ → BytesMut → TcpReadState
read stream buffer = pending stream buffer none

module _ (kernel : ℕ → Option IoError) (me : ℕ) where
  -- The outcome of `recv`.
  pub received :
      Reply (List ℕ) → ℕ → BytesMut → Option ℕ → World → Polled TcpReadState (ℕ × BytesMut × ℕ)
  received (got bytes) stream buffer interest w = record {
    state = taken;
    result = ok (ready (stream, receive bytes buffer, length bytes));
    world = w;
  }
  received (failed e) stream buffer interest w =
      if would_block e
      then blocked kernel me read_only (pending stream buffer) taken interest w
      else record { state = taken; result = err e; world = w }

  -- `TcpRead::poll`
  unfoldable pub poll :
      Reply (List ℕ) → TcpReadState → World → Polled TcpReadState (ℕ × BytesMut × ℕ)
  unfolding received
  poll recv (pending stream buffer interest) w =
      let (waiting, v) = still_waiting me interest w in
      if waiting
      then record { state = pending stream buffer interest; result = ok not_ready; world = v }
      else received recv stream buffer interest (attempt v)
  poll recv taken w = record { state = taken; result = panic; world = w }
