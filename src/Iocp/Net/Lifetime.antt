-- ===== src/Iocp/Net/Lifetime.antt =====
-- src/iocp/net.rs: a future, its operation and the port from its first poll to the last packet. A
-- step is a poll, the `drop` of the future, the completion of the operation by Windows, or a turn of
-- the port that takes a packet.
use complete_io.Base.{
  ℕ, ◌+◌, ◌≡◌, refl, sym, ap, ◌∙◌, subst, inl, inr, Option, none, some, Option-cases, List, [], ◌∷◌,
  arith,
}
use complete_io.Iocp.{Overlapped, Submitted, Reply, absent, finish, take_packet}
use complete_io.Iocp.Net.{Polled}
use complete_io.Iocp.Net.Counts.{flights, IsCounted, Keeps, finish-IsCounted, take_packet-IsCounted}

-- What the six futures have in common. `Answers` are those of the other calls of a poll, `held` the
-- handles of the operation in a state, and `start` the state a socket's method makes.
pub record OverlappedFuture : Type 1 where
  pub State : Type 0
  pub Item : Type 0
  pub Payload : Type 0
  pub Answers : Type 0
  pub start : State
  pub gone : State
  pub held : State → ℕ
  pub poll :
      Answers → ℕ → Submitted Payload → State → Overlapped Payload → Polled State Item Payload
  pub release : Reply (Unit {0}) → State → Overlapped Payload → Overlapped Payload
  pub held-start : held start ≡ 0
  pub poll-Keeps :
      (answers : Answers) (me : ℕ) (call : Submitted Payload) (s : State) (o : Overlapped Payload)
      → IsCounted (held s) o
      → Keeps held (poll answers me call s o)
  pub release-IsCounted :
      (cancel : Reply (Unit {0})) (s : State) (o : Overlapped Payload)
      → IsCounted (held s) o
      → IsCounted (held gone) (release cancel s o)

pub data Event (Answers Payload : Type 0) : Type 0 where
  polls : Answers → (me : ℕ) → Submitted Payload → Event Answers Payload
  drops : Reply (Unit {0}) → Event Answers Payload  -- with the outcome of CancelIoEx
  finishes : Reply Payload → Event Answers Payload
  turns : Event Answers Payload

module _ (f : OverlappedFuture) where
  open f use {
    State, Payload, Answers, start, gone, held, poll, release, held-start, poll-Keeps,
    release-IsCounted,
  }

  pub record Life : Type 0 where
    pub state : State
    pub task : Overlapped Payload

  abbrev pub unborn : Life
  unborn = record { state = start; task = absent }

  abbrev after : Life → Option (Overlapped Payload) → Option Life
  after l none = none
  after l (some o) = some (record l { task = o })

  unfoldable pub step : Event Answers Payload → Life → Option Life
  unfolding finish take_packet
  step (polls answers me call) l =
      let p = poll answers me call l.state l.task in
      some (record { state = p.state; task = p.task })
  step (drops cancel) l = some (record { state = gone; task = release cancel l.state l.task })
  step (finishes r) l = after l (finish l.task.status r l.task)
  step turns l = after l (take_packet l.task)

  abbrev pub run_rest : (Life → Option Life) → Option Life → Option Life
  run_rest g none = none
  run_rest g (some l) = g l

  unfoldable pub run : List (Event Answers Payload) → Life → Option Life
  unfolding step
  run [] l = some l
  run (e ∷ es) l = run_rest (run es) (step e l)

  abbrev Counted : Life → Type 0
  Counted l = IsCounted (held l.state) l.task

  after-Counted :
      (o : Option (Overlapped Payload)) (l m : Life)
      → ((u : Overlapped Payload) → o ≡ some u → IsCounted (held l.state) u)
      → after l o ≡ some m
      → Counted m
  after-Counted none l m h e = cc
  after-Counted (some u) l m h e =
      let same : record l { task = u } ≡ m = cc in subst Counted same (h u refl)

  step-Counted :
      (e : Event Answers Payload) (l m : Life) → Counted l → step e l ≡ some m → Counted m
  unfolding step
  step-Counted (polls answers me call) l m c q =
      let p = poll answers me call l.state l.task in
      let same : record { state = p.state; task = p.task } ≡ m = cc in
      subst Counted same (poll-Keeps answers me call l.state l.task c)
  step-Counted (drops cancel) l m c q =
      let same : record { state = gone; task = release cancel l.state l.task } ≡ m = cc in
      subst Counted same (release-IsCounted cancel l.state l.task c)
  step-Counted (finishes r) l m c q =
      after-Counted (finish l.task.status r l.task) l m
        (λ u out. finish-IsCounted l.task.status (held l.state) r l.task u refl c out) q
  step-Counted turns l m c q =
      after-Counted (take_packet l.task) l m
        (λ u out. take_packet-IsCounted (held l.state) l.task u c out) q

  run-Counted :
      (es : List (Event Answers Payload)) (l m : Life) → Counted l → run es l ≡ some m → Counted m
  unfolding run
  run-Counted [] l m c q = let same : l ≡ m = cc in subst Counted same c
  run-Counted (e ∷ es) l m c q = elim (Option-cases (step e l)) [
    | inl stuck ↦ cc (sym (ap (run_rest (run es)) stuck) ∙ q)
    | inr (x, moved) ↦
        run-Counted es x m (step-Counted e l x c moved) (sym (ap (run_rest (run es)) moved) ∙ q)
  ]

  pub operation_count :
      (es : List (Event Answers Payload)) (l : Life)
      → run es unborn ≡ some l
      → l.task.count ≡ held l.state + (l.task.packets + flights l.task.status)
  operation_count es l q = run-Counted es unborn l (omega (arith, held-start)) q
