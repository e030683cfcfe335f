-- ===== src/Tests/CustomEvents.antt =====
-- Runs of one custom event, with a counter for the eventfd and a list for its queue.
use complete_io.Base.{true, some, List, [], ◌∷◌, ◌++◌, ◌≡◌, refl}
use complete_io.Epoll.CustomEvents.Outside.{counter, fifo}
use complete_io.Epoll.CustomEvents.{
  Event, pushes, writes, fires, handles, CustomEvent, idle, new_custom_event, run,
}
use complete_io.Epoll.CustomEvents.Delivery.{settled_all_handled}

-- Two posts; the first turn takes both, the second finds the queue empty.
abbrev two_posts : List Event
two_posts =
    pushes 5 7
    ∷ pushes 5 8
    ∷ writes true
    ∷ fires
    ∷ handles true
    ∷ writes true
    ∷ handles true
    ∷ handles true
    ∷ handles true
    ∷ handles true
    ∷ []

abbrev second_turn : List Event
second_turn = fires ∷ handles true ∷ handles true ∷ handles true ∷ []

abbrev after_two : CustomEvent counter fifo
after_two = record {
  epoll_fd = 5;
  fd = 1;
  queue = [];
  unwritten = 0;
  armed = true;
  stage = idle;
  posted = 7 ∷ 8 ∷ [];
  handled = 7 ∷ 8 ∷ [];
}

two_posts-run : run counter fifo two_posts (new_custom_event counter fifo 5) ≡ some after_two
unfolding run new_custom_event
two_posts-run = refl

abbrev at_rest : CustomEvent counter fifo
at_rest = record after_two { fd = 0 }

both_turns-run :
    run counter fifo (two_posts ++ second_turn) (new_custom_event counter fifo 5) ≡ some at_rest
unfolding run new_custom_event
both_turns-run = refl

settled_all_handled_example : at_rest.handled ≡ at_rest.posted
settled_all_handled_example =
    settled_all_handled counter fifo 5 (two_posts ++ second_turn) at_rest both_turns-run refl refl
      refl
