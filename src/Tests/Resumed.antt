-- ===== src/Tests/Resumed.antt =====
-- src/epoll/net.rs: a read and a write on descriptor 3 that wait for the kernel, and its event.
use complete_io.Base.{
  ℕ, ◌≡◌, ◌≤◌, refl, true, false, Option, none, some, [], ◌∷◌, IoError, os, eagain, ok, ready,
  arith, swap_remove,
}
use complete_io.Bytes.{BytesMut, contents, capacity}
use complete_io.Epoll.Mask.{
  EventMask, contains, union, intersects, read_only, write_only, edge_one_shot,
}
use complete_io.Epoll.Interests.{
  World, Call, fire, fresh, wakes, ctl_mod, registered, notified, attempted, update, handle_event,
  add_interest,
}
use complete_io.Epoll.Interests.Tracked.{IsTracked}
use complete_io.Epoll.Interests.Fired.{notifications}
use complete_io.Epoll.Interests.Runs.{adds, reports, handles, run}
use complete_io.Epoll.Net.{got, failed, still_waiting, blocked}
use complete_io.Epoll.Net.TcpRead
use complete_io.Epoll.Net.Resumed.{read_resumes}

abbrev willing : ℕ → Option IoError
willing n = none

-- Four bytes, one of them in use.
abbrev pub buffer : BytesMut
buffer = record { memory = 1 ∷ 2 ∷ 3 ∷ 4 ∷ []; len = 1 }

pub fresh-IsTracked : IsTracked fresh
fresh-IsTracked i = ground arith

abbrev both : EventMask
both = record read_only { write = true }

-- Task 7 waits for reading, task 9 for writing, and the descriptor becomes readable.
abbrev read_served : World
read_served = record {
  interests = (write_only, 1) ∷ [];
  fired = update (update (update (λ _. false) 0 false) 1 false) 0 true;
  next = 2;
  log =
      ctl_mod write_only edge_one_shot none
      ∷ notified 0
      ∷ ctl_mod both edge_one_shot none
      ∷ registered 1 9
      ∷ Call.delivered read_only
      ∷ ctl_mod read_only edge_one_shot none
      ∷ registered 0 7
      ∷ attempted
      ∷ [];
}

read_served-run :
    run willing
      (reports read_only ∷ adds 9 write_only ∷ handles read_only ∷ [])
      (TcpRead.poll willing 7 (failed (os eagain)) (TcpRead.read 3 buffer) fresh).world
    ≡ some read_served
unfolding run TcpRead.poll still_waiting blocked handle_event add_interest contains union wakes
    intersects fire swap_remove
read_served-run = refl

read_resumes_example :
    (notifications 0 read_served.log ≡ 1)
    × (b : BytesMut) × ((TcpRead.poll willing 7
          (got (40 ∷ 41 ∷ []))
          (TcpRead.poll willing 7 (failed (os eagain)) (TcpRead.read 3 buffer) fresh).state
          read_served).result
        ≡ ok (ready (3, b, 2)))
    × (contents b ≡ 40 ∷ 41 ∷ [])
    × (b.len ≤ capacity b)
unfolding TcpRead.poll still_waiting blocked add_interest contains wakes
read_resumes_example =
    read_resumes willing 7 (os eagain) read_only 3 buffer (40 ∷ 41 ∷ []) fresh read_served
      (reports read_only ∷ adds 9 write_only ∷ []) [] fresh-IsTracked refl refl (omega arith)
      (omega arith) refl read_served-run
