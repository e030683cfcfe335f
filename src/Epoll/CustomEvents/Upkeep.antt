-- ===== src/Epoll/CustomEvents/Upkeep.antt =====
-- src/epoll/mod.rs: the invariant of a custom event: what has been handled, who will see to the rest,
-- and one handler at a time. Every step keeps it.
use complete_io.Base.{
  ℕ, zero, suc, ◌+◌, ◌<◌, ◌≡◌, refl, sym, ap, ◌∙◌, subst, inl, inr, ◌⊎◌, Bool, true, false, Option,
  none, some, [], ◌∷◌, ◌++◌, append_assoc, ◌==◌, arith, ◌≢◌, then_some, else_some,
}
use complete_io.Epoll.CustomEvents.Outside.{EventFd, DataQueue}
use complete_io.Epoll.CustomEvents.{
  Stage, idle, reading, draining, rearming, crashed, Event, pushes, writes, fires, handles,
  CustomEvent, new_custom_event, post, write_one, fire, after_read, after_pop, handle, step,
}

module _ (outside : EventFd) (data_queue : DataQueue) where
  open outside use {Fd, count, create, write, read, count-create, count-write}
  open data_queue use {
    Queue, contents, new, push, try_pop, contents-new, contents-push, try_pop_none, try_pop_some,
  }

  abbrev pub State : Type 0
  State = CustomEvent outside data_queue

  -- Who will see to the data in the queue: the eventfd is readable, or a poster is about to write to
  -- it, or the handler is emptying the queue.
  abbrev pub Covered : State → Type 0
  Covered c = (contents c.queue ≡ []) ⊎ (0 < count c.fd + c.unwritten) ⊎ (c.stage ≡ draining)

  pub record Inv (c : State) : Type 0 where
    pub order : c.handled ++ contents c.queue ≡ c.posted
    pub covered : Covered c
    pub exclusive : c.armed ≡ true → c.stage ≡ idle

  pub new-Inv : (epoll_fd : ℕ) → Inv (new_custom_event outside data_queue epoll_fd)
  unfolding new_custom_event
  new-Inv epoll_fd = record {
    order = contents-new;
    covered = inl contents-new;
    exclusive = λ _. refl;
  }

  pushed-Inv :
      (x : ℕ) (c : State)
      → Inv c
      → Inv (record c {
        queue = push x c.queue;
        unwritten = suc c.unwritten;
        posted = c.posted ++ x ∷ [];
      })
  pushed-Inv x c v = record {
    order =
        rw (contents-push x c.queue) (
          sym (append_assoc c.handled (contents c.queue) (x ∷ [])) ∙ ap (λ l. l ++ x ∷ []) v.order);
    covered = inr (inl (omega arith));
    exclusive = v.exclusive;
  }

  post-Inv :
      (epoll_fd x : ℕ) (c d : State) → Inv c → post outside data_queue epoll_fd x c ≡ some d → Inv d
  unfolding post
  post-Inv epoll_fd x c d v e =
      let (tag, out) = then_some (epoll_fd == c.epoll_fd) _ d e in
      let same : record c {
        queue = push x c.queue;
        unwritten = suc c.unwritten;
        posted = c.posted ++ x ∷ [];
      }
          ≡ d =
        cc in
      subst Inv same (pushed-Inv x c v)

  written_covered :
      (c : State) (n : ℕ)
      → c.unwritten ≡ suc n
      → Covered c
      → Covered (record c { fd = write c.fd; unwritten = n })
  written_covered c n q v = inr (inl (rw (count-write c.fd) (omega arith)))

  unwritten_covered :
      (c : State) (n : ℕ)
      → (count c.fd == 0) ≡ false
      → Covered c
      → Covered (record c { unwritten = n })
  unwritten_covered c n q v = inr (inl (ground arith))

  write-Inv :
      (fine : Bool) (n : ℕ) (c d : State)
      → c.unwritten ≡ n
      → Inv c
      → write_one outside data_queue fine n c ≡ some d
      → Inv d
  unfolding write_one
  write-Inv fine zero c d q v e = cc
  write-Inv true (suc n) c d q v e =
      let same : record c { fd = write c.fd; unwritten = n } ≡ d = cc in
      subst Inv same (record {
        order = v.order;
        covered = written_covered c n q v.covered;
        exclusive = v.exclusive;
      })
  write-Inv false (suc n) c d q v e =
      let (full, out) = else_some (count c.fd == 0) _ d e in
      let same : record c { unwritten = n } ≡ d = cc in
      subst Inv same (record {
        order = v.order;
        covered = unwritten_covered c n full v.covered;
        exclusive = v.exclusive;
      })

  fire-Inv : (c d : State) → Inv c → fire outside data_queue c ≡ some d → Inv d
  unfolding fire
  fire-Inv c d v e =
      let (armed, rest) = then_some c.armed _ d e in
      let (readable, out) = else_some (count c.fd == 0) _ d rest in
      let same : record c { armed = false; stage = reading } ≡ d = cc in
      subst Inv same
        (record { order = v.order; covered = inr (inl (ground arith)); exclusive = λ f. cc })

  -- A handler that moves on outside the loop.
  kept :
      (s s' : Stage)
      → (s ≢ draining)
      → (c : State) → c.stage ≡ s
      → Covered c
      → Covered (record c { stage = s' })
  kept s s' n c q (inl e) = inl e
  kept s s' n c q (inr (inl h)) = inr (inl h)
  kept s s' n c q (inr (inr d)) = absurd (n (sym q ∙ d))

  popped :
      (c : State) (x : ℕ) (r : Queue)
      → try_pop c.queue ≡ some (x, r)
      → c.handled ++ contents c.queue ≡ c.posted
      → (c.handled ++ x ∷ []) ++ contents r ≡ c.posted
  popped c x r q v =
      append_assoc c.handled (x ∷ []) (contents r)
      ∙ ap (λ l. c.handled ++ l) (sym (try_pop_some c.queue r x q))
      ∙ v

  read-Inv :
      (o : Option Fd) (c : State)
      → read c.fd ≡ o
      → c.stage ≡ reading
      → Inv c
      → Inv (after_read outside data_queue o c)
  read-Inv none c q s v = record {
    order = v.order;
    covered = kept reading rearming (λ h. cc) c s v.covered;
    exclusive = λ f. cc (s, v.exclusive f);
  }
  read-Inv (some fd) c q s v = record {
    order = v.order;
    covered = inr (inr refl);
    exclusive = λ f. cc (s, v.exclusive f);
  }

  pop-Inv :
      (o : Option (ℕ × Queue)) (c : State)
      → try_pop c.queue ≡ o
      → c.stage ≡ draining
      → Inv c
      → Inv (after_pop outside data_queue o c)
  pop-Inv none c q s v = record {
    order = v.order;
    covered = inl (try_pop_none c.queue q);
    exclusive = λ f. cc (s, v.exclusive f);
  }
  pop-Inv (some (x, r)) c q s v = record {
    order = popped c x r q v.order;
    covered = inr (inr s);
    exclusive = v.exclusive;
  }

  handle-Inv :
      (fine : Bool) (s : Stage) (c d : State)
      → c.stage ≡ s
      → Inv c
      → handle outside data_queue fine s c ≡ some d
      → Inv d
  unfolding handle
  handle-Inv fine idle c d q v e = cc
  handle-Inv fine reading c d q v e =
      let same : after_read outside data_queue (read c.fd) c ≡ d = cc in
      subst Inv same (read-Inv (read c.fd) c refl q v)
  handle-Inv fine draining c d q v e =
      let same : after_pop outside data_queue (try_pop c.queue) c ≡ d = cc in
      subst Inv same (pop-Inv (try_pop c.queue) c refl q v)
  handle-Inv true rearming c d q v e =
      let same : record c { armed = true; stage = idle } ≡ d = cc in
      subst Inv same (record {
        order = v.order;
        covered = kept rearming idle (λ h. cc) c q v.covered;
        exclusive = λ f. refl;
      })
  handle-Inv false rearming c d q v e =
      let same : record c { stage = crashed } ≡ d = cc in
      subst Inv same (record {
        order = v.order;
        covered = kept rearming crashed (λ h. cc) c q v.covered;
        exclusive = λ f. cc (q, v.exclusive f);
      })
  handle-Inv fine crashed c d q v e = cc

  pub step-Inv : (e : Event) (c d : State) → Inv c → step outside data_queue e c ≡ some d → Inv d
  unfolding step
  step-Inv (pushes epoll_fd x) c d v e = post-Inv epoll_fd x c d v e
  step-Inv (writes fine) c d v e = write-Inv fine c.unwritten c d refl v e
  step-Inv fires c d v e = fire-Inv c d v e
  step-Inv (handles fine) c d v e = handle-Inv fine c.stage c d refl v e
