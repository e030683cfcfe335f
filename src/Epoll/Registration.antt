-- ===== src/Epoll/Registration.antt =====
-- src/epoll/mod.rs: the life of one registration: `register_fd_raw`, the clones of `Registration`,
-- the events that the kernel reports with its pointer, and `Drop`. The cell is the allocation of
-- `Arc<_Registration>`; the pointer that epoll keeps is a `Weak`, which keeps the allocation, not the
-- value. `queue_refs` and `handler_refs` are what the value holds of its queue and its handler.
pub mod Lifetime
pub mod Stale
use complete_io.Base.{
  ℕ, zero, suc, ◌-◌, Bool, true, false, ◌&&◌, Option, none, some, List, [], ◌∷◌, IoError, Result,
  ok, err, ◌==◌, if◌then◌else◌,
}

pub record Cell : Type 0 where
  pub strong : ℕ
  pub weak : ℕ
  pub in_epoll : Bool  -- the interest list of the kernel has the pointer
  pub fetched : ℕ  -- events in the buffers of turns, with the pointer, not dispatched yet
  pub handlers : ℕ  -- calls of the handler that are under way, each with its own handle
  pub queue_refs : ℕ
  pub handler_refs : ℕ
  pub dangling : Bool  -- memory of a freed cell has been used

-- The allocation is freed with the last strong and the last weak pointer.
abbrev pub freed : Cell → Bool
freed c = (c.strong == 0) && (c.weak == 0)

-- `register_fd_raw`, with the outcome of EPOLL_CTL_ADD. On an error the `Weak` is dropped, and the
-- value is taken out of its `Arc` and forgotten, with what it holds.
unfoldable pub register_fd_raw : Option IoError → Result (Unit {0}) × Cell
register_fd_raw none = (
  ok tt,
  record {
    strong = 1;
    weak = 1;
    in_epoll = true;
    fetched = 0;
    handlers = 0;
    queue_refs = 1;
    handler_refs = 1;
    dangling = false;
  },
)
register_fd_raw (some e) = (
  err e,
  record {
    strong = 0;
    weak = 0;
    in_epoll = false;
    fetched = 0;
    handlers = 0;
    queue_refs = 1;
    handler_refs = 1;
    dangling = false;
  },
)

-- `_Registration::drop`, with the outcome of EPOLL_CTL_DEL, and then the fields.
unfoldable pub drop_registration : Option IoError → Cell → Cell
drop_registration none c = record c {
  weak = c.weak - 1;
  in_epoll = false;
  queue_refs = 0;
  handler_refs = 0;
}
drop_registration (some e) c = record c { queue_refs = 0; handler_refs = 0 }

-- The drop of one `Registration`.
unfoldable pub drop_handle : Option IoError → ℕ → Cell → Option Cell
unfolding drop_registration
drop_handle del zero c = none
drop_handle del (suc zero) c = some (drop_registration del (record c { strong = 0 }))
drop_handle del (suc (suc n)) c = some (record c { strong = suc n })

-- `weak.upgrade()` of a fetched event, and the call of the handler if it gives a handle.
unfoldable pub dispatch : ℕ → Cell → Option Cell
dispatch zero c = none
dispatch (suc n) c = some (
    if freed c
    then record c { fetched = n; dangling = true }
    else if c.strong == 0
    then record c { fetched = n }
    else record c { fetched = n; strong = suc c.strong; handlers = suc c.handlers })

-- The handler returns, and its handle is dropped.
unfoldable pub return_handler : Option IoError → ℕ → Cell → Option Cell
unfolding drop_handle
return_handler del zero c = none
return_handler del (suc n) c = drop_handle del c.strong (record c { handlers = n })

pub data Event : Type 0 where
  clones : Event
  drops : (del : Option IoError) → Event  -- a handle outside of the handlers
  closes : Event  -- the descriptor is closed, which takes it out of epoll (epoll(7))
  fetches : Event  -- epoll_wait puts the event in a buffer
  dispatches : Event
  returns : (del : Option IoError) → Event

-- EPOLL_CTL_DEL succeeds only for a descriptor in the interest list (epoll_ctl(2)).
abbrev pub possible : Option IoError → Cell → Bool
possible none c = c.in_epoll
possible (some e) c = true

unfoldable pub step : Event → Cell → Option Cell
unfolding drop_handle dispatch return_handler
step clones c = if c.strong == 0 then none else some (record c { strong = suc c.strong })
step (drops del) c =
    if possible del c
    then if c.strong == c.handlers then none else drop_handle del c.strong c
    else none
step closes c = some (record c { in_epoll = false })
step fetches c = if c.in_epoll then some (record c { fetched = suc c.fetched }) else none
step dispatches c = dispatch c.fetched c
step (returns del) c = if possible del c then return_handler del c.handlers c else none

abbrev pub run_rest : (Cell → Option Cell) → Option Cell → Option Cell
run_rest f none = none
run_rest f (some c) = f c

unfoldable pub run : List Event → Cell → Option Cell
unfolding step
run [] c = some c
run (e ∷ es) c = run_rest (run es) (step e c)
