-- ===== src/Epoll/CustomEvents.antt =====
-- src/epoll/mod.rs: one custom event, posted by any threads and handled by whichever thread turns the
-- queue. A step is one access to what the threads share: the queue of the data, the eventfd and the
-- one-shot registration. `posted` and `handled` are kept for the theorems.
pub mod Outside
pub mod Upkeep
pub mod Delivery
pub mod Ready
pub mod Progress
pub mod Promise
use complete_io.Base.{
  ℕ, zero, suc, Bool, true, false, Option, none, some, List, [], ◌∷◌, ◌++◌, if◌then◌else◌, ◌==◌,
}
use complete_io.Epoll.CustomEvents.Outside.{EventFd, DataQueue}

-- Where `CustomEventRegistrationHandler::handle_event` stands.
pub data Stage : Type 0 where
  idle : Stage  -- no thread is in the handler
  reading : Stage  -- before `read` of the eventfd
  draining : Stage  -- in the loop over `try_pop`
  rearming : Stage  -- before `registration.modify`
  crashed : Stage  -- the `expect` on `modify` has panicked

pub data Event : Type 0 where
  pushes : (epoll_fd data_word : ℕ) → Event  -- `post_custom_event`, to the push
  writes : (fine : Bool) → Event  -- `post_custom_event`, the write to the eventfd
  fires : Event  -- the kernel reports the eventfd as readable
  handles : (fine : Bool) → Event  -- the handler's next step; `fine` is the outcome of `modify`

module _ (outside : EventFd) (data_queue : DataQueue) where
  open outside use {Fd, count, create, write, read}
  open data_queue use {Queue, contents, new, push, try_pop}

  -- `_CustomEvent`, and the eventfd behind it.
  pub record CustomEvent : Type 0 where
    pub epoll_fd : ℕ
    pub fd : Fd
    pub queue : Queue
    pub unwritten : ℕ  -- posters between their push and their write
    pub armed : Bool
    pub stage : Stage
    pub posted : List ℕ
    pub handled : List ℕ

  -- `new_custom_event`, on the queue `epoll_fd`. The eventfd is registered and armed.
  unfoldable pub new_custom_event : ℕ → CustomEvent
  new_custom_event epoll_fd = record {
    epoll_fd = epoll_fd;
    fd = create;
    queue = new;
    unwritten = 0;
    armed = true;
    stage = idle;
    posted = [];
    handled = [];
  }

  -- `post_custom_event`: the check of the tag, and `queue.push`. `none` is the panic for a tag of
  -- another queue, which leaves the event as it was.
  unfoldable pub post : ℕ → ℕ → CustomEvent → Option CustomEvent
  post epoll_fd data_word c =
      if epoll_fd == c.epoll_fd
      then some (record c {
        queue = push data_word c.queue;
        unwritten = suc c.unwritten;
        posted = c.posted ++ data_word ∷ [];
      })
      else none

  -- The `write` of 1 to the eventfd. It fails if the counter is at its maximum (eventfd(2)), not at
  -- 0; the error goes back to the caller, and the data stay in the queue.
  unfoldable pub write_one : Bool → ℕ → CustomEvent → Option CustomEvent
  write_one fine zero c = none
  write_one true (suc n) c = some (record c { fd = write c.fd; unwritten = n })
  write_one false (suc n) c = if count c.fd == 0 then none else some (record c { unwritten = n })

  -- The kernel hands the event to a thread that waits, and the one-shot registration is spent.
  unfoldable pub fire : CustomEvent → Option CustomEvent
  fire c =
      if c.armed
      then if count c.fd == 0 then none else some (record c { armed = false; stage = reading })
      else none

  abbrev pub after_read : Option Fd → CustomEvent → CustomEvent
  after_read none c = record c { stage = rearming }
  after_read (some fd) c = record c { fd = fd; stage = draining }

  abbrev pub after_pop : Option (ℕ × Queue) → CustomEvent → CustomEvent
  after_pop none c = record c { stage = rearming }
  after_pop (some (data_word, queue)) c = record c {
    queue = queue;
    handled = c.handled ++ data_word ∷ [];
  }

  -- `CustomEventRegistrationHandler::handle_event`, a step at a time.
  unfoldable pub handle : Bool → Stage → CustomEvent → Option CustomEvent
  handle fine idle c = none
  handle fine reading c = some (after_read (read c.fd) c)
  handle fine draining c = some (after_pop (try_pop c.queue) c)
  handle true rearming c = some (record c { armed = true; stage = idle })
  handle false rearming c = some (record c { stage = crashed })
  handle fine crashed c = none

  unfoldable pub step : Event → CustomEvent → Option CustomEvent
  unfolding post write_one fire handle
  step (pushes epoll_fd data_word) c = post epoll_fd data_word c
  step (writes fine) c = write_one fine c.unwritten c
  step fires c = fire c
  step (handles fine) c = handle fine c.stage c

  abbrev pub run_rest : (CustomEvent → Option CustomEvent) → Option CustomEvent → Option CustomEvent
  run_rest f none = none
  run_rest f (some c) = f c

  unfoldable pub run : List Event → CustomEvent → Option CustomEvent
  unfolding step
  run [] c = some c
  run (e ∷ es) c = run_rest (run es) (step e c)
