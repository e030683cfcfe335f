-- ===== src/Epoll/CustomEvents/Progress.antt =====
-- src/epoll/mod.rs: from every state in which no handler has panicked, steps of the posters, of the
-- kernel and of the handler hand over all that waits.
use complete_io.Base.{
  ℕ, subst, zero, suc, ◌+◌, ◌<◌, ◌≡◌, refl, sym, ap, ◌∙◌, inl, inr, true, false, Option, none, some,
  List, [], ◌∷◌, ◌++◌, append_assoc, append-nil, arith, ◌≢◌,
}
use complete_io.Queue.Channel.{Steps, here, next}
use complete_io.Epoll.CustomEvents.Outside.{EventFd, DataQueue}
use complete_io.Epoll.CustomEvents.{
  Stage, idle, reading, draining, rearming, crashed, Event, writes, fires, handles, write_one, fire,
  after_read, after_pop, handle, step,
}
use complete_io.Epoll.CustomEvents.Upkeep.{State, Covered}
use complete_io.Epoll.CustomEvents.Ready.{IsReady, IsLive}

module _ (outside : EventFd) (data_queue : DataQueue) where
  open outside use {Fd, count, create, write, read, count-create, count-write, read_readable}
  open data_queue use {Queue, contents, new, push, try_pop, try_pop_none, try_pop_some}

  -- The steps that lead to a state in which what waits has been handed over.
  abbrev pub CatchesUp : State outside data_queue → Type 0
  CatchesUp c =
      (u : State outside data_queue) × Steps (step outside data_queue) c u
      × (contents u.queue ≡ [])
      × (u.handled ≡ c.handled ++ contents c.queue)

  first :
      (e : Event) (c d : State outside data_queue)
      → step outside data_queue e c ≡ some d
      → d.handled ++ contents d.queue ≡ c.handled ++ contents c.queue
      → CatchesUp d
      → CatchesUp c
  first e c d q same (u, path, empty, all) = (u, next e q path, empty, all ∙ same)

  nothing_waits : (c : State outside data_queue) → contents c.queue ≡ [] → CatchesUp c
  nothing_waits c e = (c, here, e, sym (append-nil c.handled) ∙ ap (c.handled ++◌) (sym e))

  module _ (c : State outside data_queue) where
    handles_at :
        (s : Stage)
        → c.stage ≡ s
        → step outside data_queue (handles true) c ≡ handle outside data_queue true s c
    unfolding step
    handles_at s q = ap (λ r. handle outside data_queue true r c) q

    pops :
        (x : ℕ) (r : Queue)
        → c.stage ≡ draining
        → try_pop c.queue ≡ some (x, r)
        → step outside data_queue (handles true) c
          ≡ some (record c { queue = r; handled = c.handled ++ x ∷ [] })
    unfolding handle
    pops x r s q = handles_at draining s ∙ ap (λ o. some (after_pop outside data_queue o c)) q

    reads :
        (g : Fd)
        → c.stage ≡ reading
        → read c.fd ≡ some g
        → step outside data_queue (handles true) c ≡ some (record c { fd = g; stage = draining })
    unfolding handle
    reads g s q = handles_at reading s ∙ ap (λ o. some (after_read outside data_queue o c)) q

    fires_now :
        c.armed ≡ true
        → 0 < count c.fd
        → step outside data_queue fires c ≡ some (record c { armed = false; stage = reading })
    unfolding step fire
    fires_now a r = ground arith

    writes_now :
        (n : ℕ)
        → c.unwritten ≡ suc n
        → step outside data_queue (writes true) c
          ≡ some (record c { fd = write c.fd; unwritten = n })
    unfolding step write_one
    writes_now n q = ap (λ m. write_one outside data_queue true m c) q

  from_draining :
      (xs : List ℕ) (c : State outside data_queue) (o : Option (ℕ × Queue))
      → contents c.queue ≡ xs
      → try_pop c.queue ≡ o
      → c.stage ≡ draining
      → CatchesUp c
  from_draining [] c o e q s = nothing_waits c e
  from_draining (x ∷ xs) c none e q s = nothing_waits c (try_pop_none c.queue q)
  from_draining (x ∷ xs) c (some (y, r)) e q s =
      let c' : State outside data_queue = record c { queue = r; handled = c.handled ++ y ∷ [] } in
      let split : contents c.queue ≡ y ∷ contents r = try_pop_some c.queue r y q in
      let left : contents r ≡ xs = cc (sym split ∙ e) in
      first (handles true) c c' (pops c y r s q)
        (append_assoc c.handled (y ∷ []) (contents r) ∙ ap (c.handled ++◌) (sym split))
        (from_draining xs c' (try_pop r) left refl s)

  from_reading : (c : State outside data_queue) → c.stage ≡ reading → 0 < count c.fd → CatchesUp c
  from_reading c s readable =
      let (g, q) = read_readable c.fd readable in
      let c' : State outside data_queue = record c { fd = g; stage = draining } in
      first (handles true) c c' (reads c g s q) refl
        (from_draining (contents c.queue) c' (try_pop c.queue) refl refl refl)

  from_readable : (c : State outside data_queue) → c.armed ≡ true → 0 < count c.fd → CatchesUp c
  from_readable c a readable =
      let c' : State outside data_queue = record c { armed = false; stage = reading } in
      first fires c c' (fires_now c a readable) refl (from_reading c' refl readable)

  from_posted :
      (n : ℕ) (c : State outside data_queue)
      → c.unwritten ≡ n
      → c.armed ≡ true
      → 0 < count c.fd + c.unwritten
      → CatchesUp c
  from_posted zero c q a h = from_readable c a (omega (arith, q))
  from_posted (suc n) c q a h =
      let c' : State outside data_queue = record c { fd = write c.fd; unwritten = n } in
      first (writes true) c c' (writes_now c n q) refl
        (from_readable c' a (omega (arith, count-write c.fd)))

  from_idle :
      (c : State outside data_queue)
      → c.stage ≡ idle
      → c.armed ≡ true
      → Covered outside data_queue c
      → CatchesUp c
  from_idle c s a (inl e) = nothing_waits c e
  from_idle c s a (inr (inl h)) = from_posted c.unwritten c refl a h
  from_idle c s a (inr (inr d)) = cc

  from_rearming :
      (c : State outside data_queue)
      → c.stage ≡ rearming
      → Covered outside data_queue c
      → CatchesUp c
  unfolding handle
  from_rearming c s (inr (inr d)) = cc
  from_rearming c s (inl e) = nothing_waits c e
  from_rearming c s (inr (inl h)) =
      let c' : State outside data_queue = record c { armed = true; stage = idle } in
      first (handles true) c c' (handles_at c rearming s) refl
        (from_idle c' refl refl (inr (inl h)))

  -- In a state with the invariants.
  pub catch_up :
      (s : Stage) (c : State outside data_queue)
      → c.stage ≡ s
      → s ≢ crashed
      → IsLive outside data_queue c
      → CatchesUp c
  catch_up idle c q n v =
      from_idle c q (subst (λ s. IsReady outside data_queue s c) q v.ready) v.inv.covered
  catch_up reading c q n v =
      from_reading c q (subst (λ s. IsReady outside data_queue s c) q v.ready)
  catch_up draining c q n v = from_draining (contents c.queue) c (try_pop c.queue) refl refl q
  catch_up rearming c q n v = from_rearming c q v.inv.covered
  catch_up crashed c q n v = absurd (n refl)
