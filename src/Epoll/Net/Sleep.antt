-- ===== src/Epoll/Net/Sleep.antt =====
-- src/epoll/net.rs: a future whose interest has fired and whose system call would block all the same,
-- because another task was faster. It registers with the interest that has fired, which no longer
-- waits, and adds no new one.
use complete_io.Base.{
  ℕ, ◌≡◌, refl, ap, sym, ◌∙◌, subst, true, false, Option, some, List, IoError, ok, not_ready,
  would_block,
}
use complete_io.Bytes.{BytesMut}
use complete_io.Epoll.Interests.{World, register}
use complete_io.Epoll.Interests.Tracked.{IsTracked}
use complete_io.Epoll.Interests.Runs.{Op, run}
use complete_io.Epoll.Interests.Fired.{Over, notifications, run-Over}
use complete_io.Epoll.Net.{failed, Polled, attempt, blocked, still_waiting}
use complete_io.Epoll.Net.Accept
use complete_io.Epoll.Net.Accept.{Accepted}
use complete_io.Epoll.Net.TcpRead

-- The future is suspended on `id`, and however the registration is used from then on, `id` gets no
-- more notifications than it had.
pub record Asleep {S A : Type 0} (state : S) (id : ℕ) (p : Polled S A) (w' : World) : Type 0 where
  pub result : p.result ≡ ok not_ready
  pub kept : p.state ≡ state
  pub silent : notifications id w'.log ≡ notifications id p.world.log

module _ (kernel : ℕ → Option IoError) (me id : ℕ) (w : World) where
  fired_attempt : w.fired id ≡ true → still_waiting me (some id) w ≡ (false, w)
  unfolding still_waiting
  fired_attempt f = rw f

  resumed : World
  resumed = register me id (attempt w)

  resumed-Over : IsTracked w → w.fired id ≡ true → Over id (notifications id resumed.log) resumed
  unfolding resumed register
  resumed-Over t f = record { tracked = t; fired = f; count = refl }

  suspended : {S A : Type 0} → S → Polled S A
  suspended state = record { state = state; result = ok not_ready; world = resumed }

  suspended-Asleep :
      {S A : Type 0} (state : S) (p : Polled S A) (ops : List Op) (w' : World)
      → IsTracked w
      → w.fired id ≡ true
      → p ≡ suspended state
      → run kernel ops p.world ≡ some w'
      → Asleep state id p w'
  unfolding suspended
  suspended-Asleep state p ops w' t f e q = record {
    result = ap (λ (x : Polled _ _). x.result) e;
    kept = ap (λ (x : Polled _ _). x.state) e;
    silent =
        (run-Over kernel ops p.world w'
          (subst (Over id _) (sym (ap (λ (x : Polled _ _). x.world) e)) (resumed-Over t f)) q).count
        ∙ ap (λ (x : Polled _ _). notifications id x.world.log) (sym e);
  }

  accept_beaten :
      (calls : Accepted) (e : IoError) (listener : ℕ)
      → w.fired id ≡ true
      → calls.accepted ≡ failed e
      → would_block e ≡ true
      → Accept.poll kernel me calls (Accept.pending listener (some id)) w
        ≡ suspended (Accept.pending listener (some id))
  unfolding suspended resumed Accept.poll blocked register
  accept_beaten calls e listener f a b = rw (fired_attempt f, a, b) refl

  read_beaten :
      (e : IoError) (stream : ℕ) (buffer : BytesMut)
      → w.fired id ≡ true
      → would_block e ≡ true
      → TcpRead.poll kernel me (failed e) (TcpRead.pending stream buffer (some id)) w
        ≡ suspended (TcpRead.pending stream buffer (some id))
  unfolding suspended resumed TcpRead.poll blocked register
  read_beaten e stream buffer f b = rw (fired_attempt f, b) refl

  -- An `Accept` that was woken, and finds that another task has taken the connection, suspends, and
  -- its task is never notified again by this interest, whatever is added to or delivered to the
  -- listener's registration.
  pub accept_beaten_sleeps :
      (calls : Accepted) (e : IoError) (listener : ℕ) (ops : List Op) (w' : World)
      → IsTracked w
      → w.fired id ≡ true
      → calls.accepted ≡ failed e
      → would_block e ≡ true
      → run kernel ops (Accept.poll kernel me calls (Accept.pending listener (some id)) w).world
        ≡ some w'
      → Asleep
          (Accept.pending listener (some id))
          id
          (Accept.poll kernel me calls (Accept.pending listener (some id)) w)
          w'
  accept_beaten_sleeps calls e listener ops w' t f a b q =
      suspended-Asleep _ _ ops w' t f (accept_beaten calls e listener f a b) q

  -- The same for a `TcpRead` whose bytes have been received by another clone of the stream.
  read_beaten_sleeps :
      (e : IoError) (stream : ℕ) (buffer : BytesMut) (ops : List Op) (w' : World)
      → IsTracked w
      → w.fired id ≡ true
      → would_block e ≡ true
      → run kernel ops
          (TcpRead.poll kernel me (failed e) (TcpRead.pending stream buffer (some id)) w).world
        ≡ some w'
      → Asleep
          (TcpRead.pending stream buffer (some id))
          id
          (TcpRead.poll kernel me (failed e) (TcpRead.pending stream buffer (some id)) w)
          w'
  read_beaten_sleeps e stream buffer ops w' t f b q =
      suspended-Asleep _ _ ops w' t f (read_beaten e stream buffer f b) q
