-- ===== src/Tests/Channels.antt =====
-- A custom event of epoll as a channel, with a counter for the eventfd and a list for its queue.
use complete_io.Base.{◌≡◌, ◌≢◌, refl, true, some, [], ◌∷◌}
use complete_io.Queue.Channel.{Move, Steps, here, next}
use complete_io.Epoll.CustomEvents.Outside.{counter, fifo}
use complete_io.Epoll.CustomEvents.{pushes, CustomEvent, idle, crashed, new_custom_event, step}
use complete_io.Epoll.CustomEvents.Promise
use complete_io.Epoll.CustomEvents.Promise.{epoll_simulates, epoll_catches_up}

abbrev created : CustomEvent counter fifo
created = record {
  epoll_fd = 5;
  fd = 0;
  queue = [];
  unwritten = 0;
  armed = true;
  stage = idle;
  posted = [];
  handled = [];
}

-- A datum is pushed, and the eventfd is not written yet.
abbrev pushed : CustomEvent counter fifo
pushed = record created { queue = 7 ∷ []; unwritten = 1; posted = 7 ∷ [] }

pushed-Steps : Steps (step counter fifo) (new_custom_event counter fifo 5) pushed
unfolding new_custom_event step
pushed-Steps = next (pushes 5 7) refl here

idle_lives : idle ≢ crashed
idle_lives q = cc q

epoll_simulates_example :
    Move (Promise.view counter fifo created) (some 7) (Promise.view counter fifo pushed)
unfolding step
epoll_simulates_example = epoll_simulates counter fifo (pushes 5 7) created pushed refl

epoll_catches_up_example :
    (u : CustomEvent counter fifo) × Steps (step counter fifo) pushed u
    × (Promise.view counter fifo u ≡ record { waiting = []; delivered = 7 ∷ [] })
epoll_catches_up_example = epoll_catches_up counter fifo 5 pushed pushed-Steps idle_lives
