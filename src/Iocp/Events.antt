-- ===== src/Iocp/Events.antt =====
-- src/iocp/mod.rs: the custom events of a completion port, its table of handlers, and the packets that
-- wait in the port, which the turns take in the order they were queued. To take a packet and to call what
-- it is for are two steps, since several threads turn at once. A handler is a number, and
-- the address of its box is the allocator's choice. `posted`, `completed`, `taken`, `handled` and
-- `notified` record what happened, for the theorems.
pub mod Order
pub mod Kept
pub mod Steps
pub mod Drained
use complete_io.Base.{
  ℕ, zero, suc, Bool, true, false, Option, none, some, List, [], ◌∷◌, ◌++◌, Result, ok, err, panic,
  if◌then◌else◌, ◌==◌,
}
use complete_io.Iocp.Timeouts.{Duration}
use complete_io.Iocp.{
  Reply, EventTag, Packet, packet, Action, notify_task, callback, post_custom_event, poll_iocp,
  future_notify_iocp_token,
}

-- A call of a handler: with the tag and the data.
pub record Delivery : Type 0 where
  pub handler : ℕ
  pub tag : EventTag
  pub data_word : ℕ

pub record Port : Type 0 where
  pub iocp_id : ℕ
  pub event_table : List (ℕ × ℕ)  -- the address of each box, and the handler in it
  pub packets : List Packet
  pub running : List Packet  -- taken by turns, with the call of the handler or the task to come
  pub taken : List Packet
  pub posted : List Delivery
  pub handled : List Delivery
  pub completed : List ℕ
  pub notified : List ℕ
  pub wild : Bool  -- a handler was called where there is none

-- `CompletionPort::new`
abbrev pub new_port : ℕ → Port
new_port id = record {
  iocp_id = id;
  event_table = [];
  packets = [];
  running = [];
  taken = [];
  posted = [];
  handled = [];
  completed = [];
  notified = [];
  wild = false;
}

abbrev pub lookup : ℕ → List (ℕ × ℕ) → Option ℕ
lookup address [] = none
lookup address ((a, handler) ∷ rest) = if a == address then some handler else lookup address rest

-- `new_custom_event`
unfoldable pub new_custom_event : ℕ → ℕ → Port → EventTag × Port
new_custom_event address handler p = (
  record { callback_ptr = address; iocp_id = p.iocp_id },
  record p { event_table = p.event_table ++ (address, handler) ∷ [] },
)

-- What comes of a post. The fields of a tag are private, so that no tag of this port has the address
-- of no handler.
abbrev pub queued : Result Packet → Option ℕ → EventTag → Port → Option Port
queued (ok q) (some h) tag p = some (record p {
  packets = p.packets ++ q ∷ [];
  posted = p.posted ++ record { handler = h; tag = tag; data_word = q.overlapped } ∷ [];
})
queued (ok q) none tag p = none
queued (err e) h tag p = some p
queued panic h tag p = some p

abbrev pub call : Option ℕ → EventTag → ℕ → Port → Port
call (some h) tag d p = record p {
  handled = p.handled ++ record { handler = h; tag = tag; data_word = d } ∷ [];
}
call none tag d p = record p { wild = true }

-- The arms of `match completion.token()`.
unfoldable pub perform : List Action → Port → Port
perform [] p = p
perform (notify_task o ∷ rest) p = perform rest (record p { notified = p.notified ++ o ∷ [] })
perform (callback pointer tag d ∷ rest) p =
    perform rest (call (lookup pointer p.event_table) tag d p)

-- `GetQueuedCompletionStatusEx` in the turn of some thread: it takes the first packet.
unfoldable pub dequeue : List Packet → Port → Option Port
dequeue [] p = none
dequeue (q ∷ rest) p =
    some (record p { packets = rest; running = p.running ++ q ∷ []; taken = p.taken ++ q ∷ [] })

abbrev pub beside : Packet → Option (Packet × List Packet) → Option (Packet × List Packet)
beside r none = none
beside r (some (q, rest)) = some (q, r ∷ rest)

-- The packet at an index, and the others.
abbrev pub pick : ℕ → List Packet → Option (Packet × List Packet)
pick k [] = none
pick zero (q ∷ qs) = some (q, qs)
pick (suc k) (q ∷ qs) = beside q (pick k qs)

-- The rest of a turn, on its thread: what `poll_iocp` does with the packet that it has taken. Clones of
-- the port turn on several threads at once, so that any of the packets may be next.
unfoldable pub finish_turn : Option Duration → Option (Packet × List Packet) → Port → Option Port
unfolding perform poll_iocp
finish_turn timeout none p = none
finish_turn timeout (some (q, rest)) p =
    some (perform (poll_iocp p.iocp_id timeout (packet q)).1 (record p { running = rest }))

pub data Event : Type 0 where
  makes : (address handler : ℕ) → Event
  posts : EventTag → (data_word : ℕ) → (answer : Reply (Unit {0})) → Event
  completes : (overlapped : ℕ) → Event  -- an operation of a socket
  dequeues : Event
  handles : (k : ℕ) → (timeout : Option Duration) → Event

-- The allocator gives no address that is in use, nor the odd address 1 to a box that holds pointers.
abbrev pub fits : ℕ → Option ℕ → Bool
fits address none = if address == future_notify_iocp_token then false else true
fits address (some h) = false

unfoldable pub step : Event → Port → Option Port
unfolding new_custom_event post_custom_event dequeue finish_turn
step (makes address handler) p =
    if fits address (lookup address p.event_table)
    then some (new_custom_event address handler p).1
    else none
step (posts tag d answer) p =
    queued (post_custom_event p.iocp_id answer tag d) (lookup tag.callback_ptr p.event_table) tag p
step (completes o) p = some (record p {
  packets = p.packets ++ record { token = future_notify_iocp_token; overlapped = o } ∷ [];
  completed = p.completed ++ o ∷ [];
})
step dequeues p = dequeue p.packets p
step (handles k timeout) p = finish_turn timeout (pick k p.running) p

abbrev pub run_rest : (Port → Option Port) → Option Port → Option Port
run_rest f none = none
run_rest f (some p) = f p

unfoldable pub run : List Event → Port → Option Port
unfolding step
run [] p = some p
run (e ∷ es) p = run_rest (run es) (step e p)
