-- ===== src/Epoll/Turn/Sockets.antt =====
-- src/epoll/mod.rs and src/epoll/net.rs together: a turn of epoll over the sockets whose registrations
-- are `FuturesRegistration`s. The registration at the pointer `p` has the world `s p` and the answers
-- `kernel p` of `epoll_ctl`; `registered` says which pointers are of a registration that exists.
use complete_io.Base.{
  ℕ, suc, ◌≡◌, ◌≤◌, refl, sym, ap, ◌∙◌, Bool, true, false, Bool-cases, inl, inr, Option, none, some,
  List, [], ◌∷◌, ◌++◌, length, IoError, Result, ok, ready, not_ready, would_block, if◌then◌else◌,
  ◌==◌, ==_iff,
}
use complete_io.Bytes.{BytesMut, contents, capacity, drop}
use complete_io.Epoll.Mask.{EventMask, from_bits_truncate, read_only}
use complete_io.Epoll.Interests.{World, handle_event, wakes}
use complete_io.Epoll.Interests.Wakeup.{handle_event-Handled}
use complete_io.Epoll.Interests.Tracked.{IsTracked}
use complete_io.Epoll.Interests.Fired.{notifications}
use complete_io.Epoll.Interests.Runs.{Op, handles, step, run, run_rest, rearm-ok}
use complete_io.Epoll.Net.{got, failed}
use complete_io.Epoll.Net.TcpRead
use complete_io.Epoll.Net.Resumed.{read_resumes}
use complete_io.Epoll.Turn.{
  EpollEvent, filled, deliver_one, deliver_all, turned, poll_interruptible,
}

abbrev pub Store : Type 0
Store = ℕ → World

-- The world after the handler.
abbrev pub after : Option (Result (Unit {0}) × World) → World → World
after none w = w
after (some (r, v)) w = v

-- The deliveries to the registration at `q`.
abbrev pub deliveries : ℕ → List EpollEvent → List Op
deliveries q [] = []
deliveries q (e ∷ es) =
    if e.pointer == q
    then handles (from_bits_truncate e.events) ∷ deliveries q es
    else deliveries q es

deliveries-append :
    (q : ℕ) (before after : List EpollEvent) (e : EpollEvent)
    → e.pointer ≡ q
    → deliveries q (before ++ e ∷ after)
      ≡ deliveries q before ++ handles (from_bits_truncate e.events) ∷ deliveries q after
deliveries-append q [] rest e same = rw ((==_iff e.pointer q).1 same) refl
deliveries-append q (x ∷ before) rest e same = elim (Bool-cases (x.pointer == q)) [
  | inl t ↦
      rw t (ap (handles (from_bits_truncate x.events) ∷◌) (deliveries-append q before rest e same))
  | inr f ↦ rw f (deliveries-append q before rest e same)
]

module _ (kernel : ℕ → ℕ → Option IoError) (registered : ℕ → Bool) where
  abbrev pub exists : ℕ → Store → Bool
  exists p s = registered p

  -- `FuturesRegistrationHandler::handle_event` of the registration at `p`.
  abbrev pub handle : ℕ → EventMask → Store → Store
  handle p m s q = if p == q then after (handle_event (kernel p) m (s p)) (s p) else s q

  deliver_one-other :
      (e : EpollEvent) (s : Store) (q : ℕ)
      → (e.pointer == q) ≡ false
      → deliver_one exists handle e s q ≡ s q
  unfolding deliver_one
  deliver_one-other e s q f = elim (Bool-cases (registered e.pointer)) [
    | inl r ↦ rw (r, f) refl
    | inr r ↦ rw r refl
  ]

  deliver_one-own :
      (e : EpollEvent) (s : Store) (q : ℕ)
      → e.pointer ≡ q
      → registered q ≡ true
      → deliver_one exists handle e s q
        ≡ after (handle_event (kernel q) (from_bits_truncate e.events) (s q)) (s q)
  unfolding deliver_one
  deliver_one-own e s q same r =
      let m = from_bits_truncate e.events in
      let own = λ (p : ℕ). after (handle_event (kernel p) m (s p)) (s p) in
      ap (λ b. (if b then handle e.pointer m s else s) q) (ap registered same ∙ r)
      ∙ ap (λ b. if b then own e.pointer else s q) ((==_iff e.pointer q).1 same)
      ∙ ap own same

  module _ (reliable : (p n : ℕ) → kernel p n ≡ none) where
    handles-step :
        (q : ℕ) (m : EventMask) (w : World)
        → step (kernel q) (handles m) w ≡ some (after (handle_event (kernel q) m w) w)
    unfolding step
    handles-step q m w =
        let (r, v, out, h) = handle_event-Handled (kernel q) m w in
        let fine : r ≡ ok tt = h.result ∙ rearm-ok (kernel q) (reliable q) v.interests _ in
        rw (out, fine) refl

    delivered :
        (q : ℕ) (es : List EpollEvent) (s : Store)
        → registered q ≡ true
        → run (kernel q) (deliveries q es) (s q) ≡ some (deliver_all exists handle es s q)
    unfolding run deliver_all
    delivered q [] s r = refl
    delivered q (e ∷ es) s r = elim (Bool-cases (e.pointer == q)) [
      | inl t ↦
          let m = from_bits_truncate e.events in
          let rest = run (kernel q) (deliveries q es) in
          ap
            (λ b. run (kernel q) (if b then handles m ∷ deliveries q es else deliveries q es) (s q))
            t
          ∙ ap (run_rest (kernel q) rest) (handles-step q m (s q))
          ∙ ap rest (sym (deliver_one-own e s q ((==_iff e.pointer q).0 t) r))
          ∙ delivered q es (deliver_one exists handle e s) r
      | inr f ↦
          let op = handles (from_bits_truncate e.events) in
          ap (λ b. run (kernel q) (if b then op ∷ deliveries q es else deliveries q es) (s q)) f
          ∙ ap (run (kernel q) (deliveries q es)) (sym (deliver_one-other e s q f))
          ∙ delivered q es (deliver_one exists handle e s) r
    ]

    -- A turn that ends with the events `es`, with a kernel that refuses no epoll_ctl call: it returns their
    -- number, and it has done to each registration that exists what the deliveries of its own
    -- events do, in their order.
    pub turn_runs :
        (q : ℕ) (es : List EpollEvent) (s : Store)
        → registered q ≡ true
        → ((poll_interruptible exists handle (filled es) s).0 ≡ ok (length es))
          × (run (kernel q) (deliveries q es) (s q)
              ≡ some ((poll_interruptible exists handle (filled es) s).1 q))
    unfolding poll_interruptible turned run deliver_all
    turn_runs q [] s r = (refl, refl)
    turn_runs q (e ∷ es) s r = (refl, delivered q (e ∷ es) s r)

    -- A new read of the socket at `q` would block, and its first `poll` waits. A turn in which some event is
    -- for the socket, and wakes a read, notifies the read once, whatever the other events of the
    -- turn; with bytes that fit the valid buffer the next `poll` gives back the stream, their number
    -- and a valid buffer that starts with them.
    pub turn_resumes_read :
        (me : ℕ) (e : IoError) (stream : ℕ) (buffer : BytesMut) (bytes : List ℕ) (q : ℕ) (w : World)
        (s : Store) (before rest : List EpollEvent) (event : EpollEvent)
        → registered q ≡ true
        → event.pointer ≡ q
        → wakes (from_bits_truncate event.events) read_only ≡ true
        → IsTracked w
        → would_block e ≡ true
        → length bytes ≤ capacity buffer
        → buffer.len ≤ capacity buffer
        → (TcpRead.poll (kernel q) me (failed e) (TcpRead.read stream buffer) w).result
          ≡ ok not_ready
        → s q ≡ (TcpRead.poll (kernel q) me (failed e) (TcpRead.read stream buffer) w).world
        → (notifications w.next
              ((poll_interruptible exists handle (filled (before ++ event ∷ rest)) s).1 q).log
            ≡ suc (notifications w.next w.log))
          × (b : BytesMut) × ((TcpRead.poll
                (kernel q)
                me
                (got bytes)
                (TcpRead.poll (kernel q) me (failed e) (TcpRead.read stream buffer) w).state
                ((poll_interruptible exists handle (filled (before ++ event ∷ rest)) s).1 q)).result
              ≡ ok (ready (stream, b, length bytes)))
          × (contents b ≡ bytes ++ drop (length bytes) (contents buffer))
          × (b.len ≤ capacity b)
    turn_resumes_read me e stream buffer bytes q w s before rest event r own apt t blocks fits valid
          h at =
        let u = (poll_interruptible exists handle (filled (before ++ event ∷ rest)) s).1 q in
        let split = deliveries-append q before rest event own in
        read_resumes (kernel q) me e (from_bits_truncate event.events) stream buffer bytes w u
          (deliveries q before) (deliveries q rest) t blocks apt fits valid h
          (ap
              (λ ops.
                run (kernel q) ops
                  (TcpRead.poll (kernel q) me (failed e) (TcpRead.read stream buffer) w).world)
              (sym split)
            ∙ ap (run (kernel q) (deliveries q (before ++ event ∷ rest))) (sym at)
            ∙ (turn_runs q (before ++ event ∷ rest) s r).1)
