-- ===== src/Iocp/Net/Counts.antt =====
-- src/iocp/mod.rs and src/iocp/net.rs: the reference count of an overlapped operation. Each step
-- keeps it equal to the handle of the future plus what Windows owes.
use complete_io.Base.{
  ℕ, suc, ◌+◌, ◌-◌, ◌==◌, ◌≡◌, refl, some, Result, arith, else_some, ap, ◌∙◌, subst, ◌∷◌,
}
use complete_io.Iocp.{
  Overlapped, Submitted, at_once, started, refused, Status, unsubmitted, in_flight, complete, Reply,
  got, failed, poll_socket, register, drop, finish, take_packet, notifies,
}
use complete_io.Iocp.Net.{Polled, initial_poll, resumed, pending_poll, cancelled}

-- One for an operation in flight: its packet is to come.
abbrev pub flights : {A : Type 0} → Status A → ℕ
flights unsubmitted = 0
flights in_flight = 1
flights (complete r) = 0

-- The strong count is the handles of the future, the packets in the port and the operation in flight.
abbrev pub IsCounted : {A : Type 0} → ℕ → Overlapped A → Type 0
IsCounted held o = o.count ≡ held + (o.packets + flights o.status)

module _ {A : Type 0} where
  -- A poll of a future that holds `held s` handles in the state `s`.
  abbrev pub Keeps : {S T : Type 0} → (S → ℕ) → Polled S T A → Type 0
  Keeps held p = IsCounted (held p.state) p.task

  module _ {S T : Type 0} (deliver : A → Result T) (pending gone : S) (held : S → ℕ)
      (one : held pending ≡ 1) (nothing : held gone ≡ 0) (me : ℕ) where
    pub initial-Keeps :
        (call : Submitted A) → Keeps held (initial_poll deliver pending gone me call)
    unfolding initial_poll
    initial-Keeps (at_once x) = omega arith
    initial-Keeps started = omega arith
    initial-Keeps (refused e) = omega arith

    resumed-Keeps :
        (s : Status A) (o : Overlapped A)
        → o.status ≡ s
        → IsCounted 1 o
        → Keeps held (resumed deliver pending gone (poll_socket s) (register me o))
    unfolding poll_socket resumed
    resumed-Keeps unsubmitted o q c = omega arith
    resumed-Keeps in_flight o q c = omega arith
    resumed-Keeps (complete (got x)) o q c = omega arith
    resumed-Keeps (complete (failed e)) o q c = omega arith

    pub pending-Keeps :
        (o : Overlapped A) → IsCounted 1 o → Keeps held (pending_poll deliver pending gone me o)
    unfolding pending_poll
    pending-Keeps o c = resumed-Keeps o.status o refl c

  pub cancelled-IsCounted :
      (cancel : Reply (Unit {0})) (o : Overlapped A)
      → IsCounted 1 o
      → IsCounted 0 (cancelled cancel o).1
  unfolding cancelled
  cancelled-IsCounted (got x) o c = omega arith
  cancelled-IsCounted (failed e) o c = omega arith

  pub finish-IsCounted :
      (s : Status A) (held : ℕ) (r : Reply A) (o u : Overlapped A)
      → o.status ≡ s
      → IsCounted held o
      → finish s r o ≡ some u
      → IsCounted held u
  unfolding finish
  finish-IsCounted unsubmitted held r o u q c e = cc
  finish-IsCounted in_flight held r o u q c e =
      let same : record o { status = complete r; packets = suc o.packets } ≡ u = cc in
      let before : o.count ≡ held + (o.packets + 1) =
        c ∙ ap (λ s. held + (o.packets + flights s)) q in
      subst (IsCounted held) same (omega arith)
  finish-IsCounted (complete x) held r o u q c e = cc

  pub take_packet-IsCounted :
      (held : ℕ) (o u : Overlapped A) → IsCounted held o → take_packet o ≡ some u → IsCounted held u
  unfolding take_packet
  take_packet-IsCounted held o u c e =
      let (some_packet, out) = else_some (o.packets == 0) _ u e in
      let same : drop (record o { packets = o.packets - 1; log = notifies ∷ o.log }) ≡ u = cc in
      subst (IsCounted held) same (ground arith)
