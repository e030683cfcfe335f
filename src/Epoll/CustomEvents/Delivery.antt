-- ===== src/Epoll/CustomEvents/Delivery.antt =====
-- Every datum that is posted is handled once and in order, and none is left behind.
use complete_io.Base.{
  ℕ, ◌≡◌, sym, ap, ◌∙◌, subst, inl, inr, true, some, List, [], ◌∷◌, ◌++◌, append-nil, arith,
  Option-cases,
}
use complete_io.Epoll.CustomEvents.Outside.{EventFd, DataQueue}
use complete_io.Epoll.CustomEvents.{idle, Event, new_custom_event, step, run, run_rest}
use complete_io.Epoll.CustomEvents.Upkeep.{State, Inv, new-Inv, step-Inv}

module _ (outside : EventFd) (data_queue : DataQueue) where
  open outside use {Fd, count, create, write, read, count-create, count-write}
  open data_queue use {
    Queue, contents, new, push, try_pop, contents-new, contents-push, try_pop_none, try_pop_some,
  }

  run-Inv :
      (es : List Event) (c d : State outside data_queue)
      → Inv outside data_queue c
      → run outside data_queue es c ≡ some d
      → Inv outside data_queue d
  unfolding run
  run-Inv [] c d v q = let same : c ≡ d = cc in subst (Inv outside data_queue) same v
  run-Inv (e ∷ es) c d v q = elim (Option-cases (step outside data_queue e c)) [
    | inl stuck ↦ cc (sym (ap (run_rest outside data_queue (run outside data_queue es)) stuck) ∙ q)
    | inr (x, moved) ↦
        run-Inv es x d (step-Inv outside data_queue e c x v moved)
          (sym (ap (run_rest outside data_queue (run outside data_queue es)) moved) ∙ q)
  ]

  -- Whatever the schedule of posters and handlers, whatever writes and re-arms fail, the data that
  -- were handled, followed by those still in the queue, are the data that were posted, in the order
  -- of the posts.
  handled_in_order :
      (epoll_fd : ℕ) (es : List Event) (c : State outside data_queue)
      → run outside data_queue es (new_custom_event outside data_queue epoll_fd) ≡ some c
      → c.handled ++ contents c.queue ≡ c.posted
  handled_in_order epoll_fd es c q = (run-Inv es _ c (new-Inv outside data_queue epoll_fd) q).order

  -- Whenever no poster is between its push and its write, the eventfd has been read down to 0 and no
  -- thread is in the handler, everything that was posted has been handled.
  pub settled_all_handled :
      (epoll_fd : ℕ) (es : List Event) (c : State outside data_queue)
      → run outside data_queue es (new_custom_event outside data_queue epoll_fd) ≡ some c
      → c.unwritten ≡ 0
      → count c.fd ≡ 0
      → c.stage ≡ idle
      → c.handled ≡ c.posted
  settled_all_handled epoll_fd es c q u f s =
      let v = run-Inv es _ c (new-Inv outside data_queue epoll_fd) q in
      let nothing : contents c.queue ≡ [] = elim v.covered [
        | inl e ↦ e
        | inr (inl h) ↦ absurd (omega arith)
        | inr (inr d) ↦ cc
      ] in
      sym (append-nil c.handled) ∙ ap (λ l. c.handled ++ l) (sym nothing) ∙ v.order

  -- While the registration is armed no thread is in the handler, so that two threads never empty the
  -- queue at once.
  handler-exclusive :
      (epoll_fd : ℕ) (es : List Event) (c : State outside data_queue)
      → run outside data_queue es (new_custom_event outside data_queue epoll_fd) ≡ some c
      → c.armed ≡ true
      → c.stage ≡ idle
  handler-exclusive epoll_fd es c q a =
      (run-Inv es _ c (new-Inv outside data_queue epoll_fd) q).exclusive a
