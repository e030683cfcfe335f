-- ===== src/Tests/SocketTurns.antt =====
-- src/epoll/mod.rs and src/epoll/net.rs: a turn over two sockets, the read of one of which waits.
use complete_io.Base.{
  ℕ, ◌≡◌, ◌≤◌, refl, Bool, true, Option, none, [], ◌∷◌, IoError, os, eagain, ok, ready, arith,
  if◌then◌else◌, ◌==◌,
}
use complete_io.Bytes.{BytesMut, contents, capacity}
use complete_io.Epoll.Mask.{contains, from_bits_truncate}
use complete_io.Epoll.Interests.{World, fresh, wakes, add_interest}
use complete_io.Epoll.Interests.Fired.{notifications}
use complete_io.Epoll.Net.{got, failed, still_waiting, blocked}
use complete_io.Epoll.Net.TcpRead
use complete_io.Epoll.Turn.{EpollEvent, filled, poll_interruptible}
use complete_io.Epoll.Turn.Sockets.{Store, exists, handle, turn_resumes_read}
use complete_io.Tests.Resumed.{buffer, fresh-IsTracked}

abbrev willing : ℕ → ℕ → Option IoError
willing p n = none

abbrev all : ℕ → Bool
all p = true

-- EPOLLIN for the socket 100, between events of the sockets 200 and 100.
abbrev readable : ℕ → EpollEvent
readable p = record { events = 1; pointer = p }

abbrev writable : ℕ → EpollEvent
writable p = record { events = 4; pointer = p }

abbrev waiting : World
waiting = (TcpRead.poll (willing 100) 7 (failed (os eagain)) (TcpRead.read 3 buffer) fresh).world

abbrev store : Store
store p = if p == 100 then waiting else fresh

abbrev turned : World
turned =
    (poll_interruptible (exists willing all) (handle willing all)
        (filled (readable 200 ∷ readable 100 ∷ writable 100 ∷ [])) store).1
      100

turn_resumes_read_example :
    (notifications 0 turned.log ≡ 1)
    × (b : BytesMut) × ((TcpRead.poll
          (willing 100)
          7
          (got (40 ∷ 41 ∷ []))
          (TcpRead.poll (willing 100) 7 (failed (os eagain)) (TcpRead.read 3 buffer) fresh).state
          turned).result
        ≡ ok (ready (3, b, 2)))
    × (contents b ≡ 40 ∷ 41 ∷ [])
    × (b.len ≤ capacity b)
unfolding TcpRead.poll still_waiting blocked add_interest contains wakes from_bits_truncate
turn_resumes_read_example =
    turn_resumes_read willing all (λ p n. refl) 7 (os eagain) 3 buffer (40 ∷ 41 ∷ []) 100 fresh
      store (readable 200 ∷ []) (writable 100 ∷ []) (readable 100) refl refl refl fresh-IsTracked
      refl (omega arith) (omega arith) refl refl
