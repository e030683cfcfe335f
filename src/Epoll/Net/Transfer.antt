-- ===== src/Epoll/Net/Transfer.antt =====
-- src/epoll/net.rs: what a finished read or write hands back.
use complete_io.Base.{
  ℕ, ◌≡◌, ◌≤◌, refl, true, false, Option, none, some, List, ◌++◌, length, IoError, write_zero, ok,
  err, ready, if◌then◌else◌, ◌==◌, arith,
}
use complete_io.Bytes.{
  BytesMut, contents, capacity, drop, receive, contents-receive, receive-capacity,
}
use complete_io.Epoll.Interests.{World}
use complete_io.Epoll.Net.{got, still_waiting}
use complete_io.Epoll.Net.TcpRead
use complete_io.Epoll.Net.SendTo

-- The interest of a future lets it go on: it has none yet, or the one it has, has fired.
abbrev pub MayProceed : Option ℕ → World → Type 0
MayProceed none w = Unit {0}
MayProceed (some id) w = w.fired id ≡ true

pub proceeds :
    (me : ℕ) (interest : Option ℕ) (w : World)
    → MayProceed interest w
    → still_waiting me interest w ≡ (false, w)
unfolding still_waiting
proceeds me none w h = refl
proceeds me (some id) w h = rw h

module _ (kernel : ℕ → Option IoError) (me : ℕ) where
  -- A read that may proceed and receives `bytes`, which fit the capacity of a valid buffer, comes
  -- back with its stream, the number of bytes, and a valid buffer of the same capacity. The bytes
  -- stand at the start of the buffer, and older content stays behind them.
  pub tcp_read_delivers :
      (bytes : List ℕ) (stream : ℕ) (buffer : BytesMut) (interest : Option ℕ) (w : World)
      → MayProceed interest w
      → length bytes ≤ capacity buffer
      → buffer.len ≤ capacity buffer
      → (b : BytesMut) × ((TcpRead.poll kernel me
            (got bytes)
            (TcpRead.pending stream buffer interest)
            w).result
          ≡ ok (ready (stream, b, length bytes)))
        × (contents b ≡ bytes ++ drop (length bytes) (contents buffer))
        × (b.len ≤ capacity b)
        × (capacity b ≡ capacity buffer)
  unfolding TcpRead.poll
  tcp_read_delivers bytes stream buffer interest w p h k = (
    receive bytes buffer,
    rw (proceeds me interest w p) refl,
    contents-receive bytes buffer h,
    (receive-capacity bytes buffer h k).0,
    (receive-capacity bytes buffer h k).1,
  )

  -- A datagram that is sent is either sent whole, and the future gives back its socket and bytes, or
  -- in part, and the future fails with `WriteZero`.
  send_to_whole :
      (n : ℕ) (socket : ℕ) (buffer : List ℕ) (addr : ℕ) (interest : Option ℕ) (w : World)
      → MayProceed interest w
      → (SendTo.poll kernel me (got n) (SendTo.pending socket buffer addr interest) w).result
        ≡ (if n == length buffer then ok (ready (socket, buffer)) else err write_zero)
  unfolding SendTo.poll
  send_to_whole n socket buffer addr interest w p = rw (proceeds me interest w p) (ground arith)
