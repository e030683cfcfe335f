-- ===== src/Epoll/Net/Resumed.antt =====
-- src/epoll/net.rs and src/epoll/mod.rs together: a future whose system call would block, the event
-- that it waits for, and its next `poll`.
use complete_io.Base.{
  ℕ, suc, ◌≡◌, ◌≤◌, ap, refl, sym, ◌∙◌, Bool-cases, Option-cases, inl, inr, true, none, some,
  Option, List, ◌∷◌, ◌++◌, length, IoError, Result, ok, err, panic, ready, not_ready, would_block,
}
use complete_io.Bytes.{BytesMut, contents, capacity, drop}
use complete_io.Epoll.Mask.{EventMask, contains, read_only, write_only}
use complete_io.Epoll.Interests.{World, wakes, add_interest, masks}
use complete_io.Epoll.Interests.Tracked.{IsTracked}
use complete_io.Epoll.Interests.Fired.{notifications, Over}
use complete_io.Epoll.Interests.Runs.{handles, Op, run}
use complete_io.Epoll.Interests.Served.{new-Waits, run-served}
use complete_io.Epoll.Net.{Polled, got, failed, still_waiting, suspend, as_some, blocked, attempt}
use complete_io.Epoll.Net.TcpRead
use complete_io.Epoll.Net.TcpWrite
use complete_io.Epoll.Net.Transfer.{proceeds, tcp_read_delivers}

-- Without an error, the new interest is the one with the next number.
abbrev IsNext : ℕ → Result ℕ × World → Type 0
IsNext n (ok id, w) = id ≡ n
IsNext n _ = Unit {0}

add_interest-IsNext :
    (kernel : ℕ → Option IoError) (me : ℕ) (events : EventMask) (w : World)
    → IsNext w.next (add_interest kernel me events w)
unfolding add_interest
add_interest-IsNext kernel me events w = elim (Bool-cases (contains (masks w.interests) events)) [
  | inl covered ↦ rw covered refl
  | inr more ↦ elim (Option-cases (kernel (suc (length w.log)))) [
    | inl done ↦ rw (more, done) refl
    | inr (e, refused) ↦ rw (more, refused) tt
  ]
]

module _ {S A : Type 0} (pending : Option ℕ → S) (gone : S) (kernel : ℕ → Option IoError) (me : ℕ)
    (events : EventMask) where
  -- A future that had no interest waits on the new one.
  pub record Awaits (w : World) (p : Polled S A) : Type 0 where
    pub state : p.state ≡ pending (some w.next)
    pub world : p.world ≡ (add_interest kernel me events w).1

  suspend-Awaits :
      (w : World) (p : Polled S A) (r : Result ℕ × World)
      → r ≡ add_interest kernel me events w
      → IsNext w.next r
      → p ≡ suspend kernel me events pending gone (as_some kernel me events r)
      → p.result ≡ ok not_ready
      → Awaits w p
  suspend-Awaits w p (ok id, v) q n same h = record {
    state = ap (λ x. x.state) same ∙ ap (λ i. pending (some i)) n;
    world = ap (λ x. x.world) same ∙ ap (λ x. x.1) q;
  }
  suspend-Awaits w p (err e, v) q n same h = cc
  suspend-Awaits w p (panic, v) q n same h = cc

  blocked-Awaits :
      (w : World) (p : Polled S A)
      → p ≡ blocked kernel me events pending gone none w
      → p.result ≡ ok not_ready
      → Awaits w p
  unfolding blocked
  blocked-Awaits w p same h =
      suspend-Awaits w p (add_interest kernel me events w) refl
        (add_interest-IsNext kernel me events w) same h

  -- Such a future, and an event that is for it.
  Awaits-Over :
      (event : EventMask) (w u : World) (p : Polled S A) (before after : List Op)
      → wakes event events ≡ true
      → IsTracked w
      → Awaits w p
      → run kernel (before ++ handles event ∷ after) p.world ≡ some u
      → Over w.next (suc (notifications w.next w.log)) u
  Awaits-Over event w u p before after apt t a ran =
      run-served event w.next kernel before after (add_interest kernel me events w).1 u
        (new-Waits event w.next kernel me events w t refl apt)
        (ap (run kernel (before ++ handles event ∷ after)) (sym a.world) ∙ ran)

module _ (kernel : ℕ → Option IoError) (me : ℕ) (e : IoError) where
  tcp_read-Awaits :
      (stream : ℕ) (buffer : BytesMut) (w : World)
      → would_block e ≡ true
      → (TcpRead.poll kernel me (failed e) (TcpRead.read stream buffer) w).result ≡ ok not_ready
      → Awaits
          (TcpRead.pending stream buffer)
          TcpRead.taken
          kernel
          me
          read_only
          (attempt w)
          (TcpRead.poll kernel me (failed e) (TcpRead.read stream buffer) w)
  unfolding TcpRead.poll still_waiting
  tcp_read-Awaits stream buffer w blocks h =
      blocked-Awaits (TcpRead.pending stream buffer) TcpRead.taken kernel me read_only (attempt w)
        (TcpRead.poll kernel me (failed e) (TcpRead.read stream buffer) w) (rw blocks refl) h

  tcp_write-Awaits :
      (stream : ℕ) (bytes : List ℕ) (w : World)
      → would_block e ≡ true
      → (TcpWrite.poll kernel me (failed e) (TcpWrite.write stream bytes) w).result ≡ ok not_ready
      → Awaits
          (TcpWrite.pending stream bytes)
          TcpWrite.taken
          kernel
          me
          write_only
          (attempt w)
          (TcpWrite.poll kernel me (failed e) (TcpWrite.write stream bytes) w)
  unfolding TcpWrite.poll still_waiting
  tcp_write-Awaits stream bytes w blocks h =
      blocked-Awaits (TcpWrite.pending stream bytes) TcpWrite.taken kernel me write_only (attempt w)
        (TcpWrite.poll kernel me (failed e) (TcpWrite.write stream bytes) w) (rw blocks refl) h

  -- A read on a tracked registration would block, and its first `poll` succeeds in waiting. Then
  -- whatever interests are added and events handled, an event among them for which a read is woken
  -- (its own flag, hangup or error) notifies the new interest, in all exactly once. When the kernel
  -- then has bytes that fit the valid buffer, the next `poll` gives back the stream, the number of
  -- bytes and a valid buffer that starts with them.
  pub read_resumes :
      (event : EventMask) (stream : ℕ) (buffer : BytesMut) (bytes : List ℕ) (w u : World)
      (before after : List Op)
      → IsTracked w
      → would_block e ≡ true
      → wakes event read_only ≡ true
      → length bytes ≤ capacity buffer
      → buffer.len ≤ capacity buffer
      → (TcpRead.poll kernel me (failed e) (TcpRead.read stream buffer) w).result ≡ ok not_ready
      → run kernel
          (before ++ handles event ∷ after)
          (TcpRead.poll kernel me (failed e) (TcpRead.read stream buffer) w).world
        ≡ some u
      → (notifications w.next u.log ≡ suc (notifications w.next w.log))
        × (b : BytesMut) × ((TcpRead.poll kernel me
              (got bytes)
              (TcpRead.poll kernel me (failed e) (TcpRead.read stream buffer) w).state
              u).result
            ≡ ok (ready (stream, b, length bytes)))
        × (contents b ≡ bytes ++ drop (length bytes) (contents buffer))
        × (b.len ≤ capacity b)
  read_resumes event stream buffer bytes w u before after t blocks apt fits valid h ran =
      let a = tcp_read-Awaits stream buffer w blocks h in
      let over =
        Awaits-Over (TcpRead.pending stream buffer) TcpRead.taken kernel me read_only event
          (attempt w) u (TcpRead.poll kernel me (failed e) (TcpRead.read stream buffer) w) before
          after apt t a ran in
      let (b, delivered, c, l, _) =
        tcp_read_delivers kernel me bytes stream buffer (some w.next) u over.fired fits valid in
      (
        over.count,
        b,
        ap (λ x. (TcpRead.poll kernel me (got bytes) x u).result) a.state ∙ delivered,
        c,
        l,
      )

  -- The same of a write: once the event has come, the next `poll` gives back the stream, its bytes
  -- and the number of them that the kernel has taken.
  write_resumes :
      (event : EventMask) (stream : ℕ) (bytes : List ℕ) (n : ℕ) (w u : World)
      (before after : List Op)
      → IsTracked w
      → would_block e ≡ true
      → wakes event write_only ≡ true
      → (TcpWrite.poll kernel me (failed e) (TcpWrite.write stream bytes) w).result ≡ ok not_ready
      → run kernel
          (before ++ handles event ∷ after)
          (TcpWrite.poll kernel me (failed e) (TcpWrite.write stream bytes) w).world
        ≡ some u
      → (notifications w.next u.log ≡ suc (notifications w.next w.log))
        × ((TcpWrite.poll kernel me
              (got n)
              (TcpWrite.poll kernel me (failed e) (TcpWrite.write stream bytes) w).state
              u).result
            ≡ ok (ready (stream, bytes, n)))
  unfolding TcpWrite.poll still_waiting
  write_resumes event stream bytes n w u before after t blocks apt h ran =
      let a = tcp_write-Awaits stream bytes w blocks h in
      let over =
        Awaits-Over (TcpWrite.pending stream bytes) TcpWrite.taken kernel me write_only event
          (attempt w) u (TcpWrite.poll kernel me (failed e) (TcpWrite.write stream bytes) w) before
          after apt t a ran in
      (
        over.count,
        ap (λ x. (TcpWrite.poll kernel me (got n) x u).result) a.state
            ∙ rw (proceeds me (some w.next) u over.fired) refl,
      )
