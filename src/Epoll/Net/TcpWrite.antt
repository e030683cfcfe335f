-- ===== src/Epoll/Net/TcpWrite.antt =====
-- src/epoll/net.rs: `TcpStream::write` and the future `TcpWrite`. `send` comes back with the number
-- of bytes that were sent.
use complete_io.Base.{
  ℕ, Option, none, List, if◌then◌else◌, IoError, ok, err, panic, ready, not_ready, would_block,
}
use complete_io.Epoll.Mask.{write_only}
use complete_io.Epoll.Interests.{World}
use complete_io.Epoll.Net.{Reply, got, failed, Polled, still_waiting, attempt, blocked}

pub data TcpWriteState : Type 0 where
  pending : (stream : ℕ) → List ℕ → Option ℕ → TcpWriteState
  taken : TcpWriteState  -- `TcpWriteState::None`

-- `AsyncWrite::write`
abbrev pub write : ℕ → List ℕ → TcpWriteState
write stream bytes = pending stream bytes none

module _ (kernel : ℕ → Option IoError) (me : ℕ) where
  -- The outcome of `send`.
  pub sent : Reply ℕ → ℕ → List ℕ → Option ℕ → World → Polled TcpWriteState (ℕ × List ℕ × ℕ)
  sent (got byte_count) stream bytes interest w = record {
    state = taken;
    result = ok (ready (stream, bytes, byte_count));
    world = w;
  }
  sent (failed e) stream bytes interest w =
      if would_block e
      then blocked kernel me write_only (pending stream bytes) taken interest w
      else record { state = taken; result = err e; world = w }

  -- `TcpWrite::poll`
  unfoldable pub poll : Reply ℕ → TcpWriteState → World → Polled TcpWriteState (ℕ × List ℕ × ℕ)
  unfolding sent
  poll send (pending stream bytes interest) w =
      let (waiting, v) = still_waiting me interest w in
      if waiting
      then record { state = pending stream bytes interest; result = ok not_ready; world = v }
      else sent send stream bytes interest (attempt v)
  poll send taken w = record { state = taken; result = panic; world = w }
