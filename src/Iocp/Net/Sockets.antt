-- ===== src/Iocp/Net/Sockets.antt =====
-- src/iocp/net.rs: `Connect` and `Accept` as overlapped futures.
use complete_io.Base.{ℕ, refl, arith}
use complete_io.Iocp.{Overlapped, Submitted, Reply, got, failed}
use complete_io.Iocp.Net.Counts.{IsCounted, Keeps, initial-Keeps, pending-Keeps}
use complete_io.Iocp.Net.Lifetime.{OverlappedFuture}
use complete_io.Iocp.Net.Accept
use complete_io.Iocp.Net.Accept.{AcceptState, Listener, Calls}
use complete_io.Iocp.Net.Connect
use complete_io.Iocp.Net.Connect.{ConnectState}

abbrev pub connect_held : ConnectState → ℕ
connect_held (Connect.initial stream addr) = 0
connect_held (Connect.pending stream) = 1
connect_held (Connect.error e) = 0
connect_held Connect.taken = 0

pub connect-Keeps :
    (completed : Reply (Unit {0})) (me : ℕ) (call : Submitted (Unit {0})) (s : ConnectState)
    (o : Overlapped (Unit {0}))
    → IsCounted (connect_held s) o
    → Keeps connect_held (Connect.poll completed me call s o)
unfolding Connect.poll
connect-Keeps completed me call (Connect.initial stream addr) o c =
    initial-Keeps _ _ _ connect_held refl refl me call
connect-Keeps completed me call (Connect.pending stream) o c =
    pending-Keeps _ _ _ connect_held refl refl me o c
connect-Keeps completed me call (Connect.error e) o c = c
connect-Keeps completed me call Connect.taken o c = c

pub connect_release-IsCounted :
    (s : ConnectState) (o : Overlapped (Unit {0}))
    → IsCounted (connect_held s) o
    → IsCounted 0 (Connect.release s o)
unfolding Connect.release
connect_release-IsCounted (Connect.initial stream addr) o c = c
connect_release-IsCounted (Connect.pending stream) o c = omega arith
connect_release-IsCounted (Connect.error e) o c = c
connect_release-IsCounted Connect.taken o c = c

-- `Connect`, with a bound stream.
abbrev pub connect : ℕ → ℕ → OverlappedFuture
connect stream addr = record {
  State = ConnectState;
  Item = ℕ;
  Payload = Unit {0};
  Answers = Reply (Unit {0});
  start = Connect.initial stream addr;
  gone = Connect.taken;
  held = connect_held;
  poll = Connect.poll;
  release = λ cancel s o. Connect.release s o;
  held-start = refl;
  poll-Keeps = connect-Keeps;
  release-IsCounted = λ cancel s o c. connect_release-IsCounted s o c;
}

abbrev pub accept_held : AcceptState → ℕ
accept_held (Accept.initial listener) = 0
accept_held (Accept.pending_single_stack listener stream) = 1
accept_held Accept.taken = 0

initiate-Keeps :
    (calls : Calls) (me : ℕ) (call : Submitted (Unit {0})) (listener : Listener) (r : Reply ℕ)
    (o : Overlapped (Unit {0}))
    → IsCounted 0 o
    → Keeps accept_held (Accept.initiate calls me call listener r o)
unfolding Accept.initiate
initiate-Keeps calls me call listener (got stream) o c =
    initial-Keeps _ _ _ accept_held refl refl me call
initiate-Keeps calls me call listener (failed e) o c = c

pub accept-Keeps :
    (calls : Calls) (me : ℕ) (call : Submitted (Unit {0})) (s : AcceptState)
    (o : Overlapped (Unit {0}))
    → IsCounted (accept_held s) o
    → Keeps accept_held (Accept.poll calls me call s o)
unfolding Accept.poll
accept-Keeps calls me call (Accept.initial listener) o c =
    initiate-Keeps calls me call listener (Accept.acceptee listener.ip_version calls) o c
accept-Keeps calls me call (Accept.pending_single_stack listener stream) o c =
    pending-Keeps _ _ _ accept_held refl refl me o c
accept-Keeps calls me call Accept.taken o c = c

pub accept_release-IsCounted :
    (s : AcceptState) (o : Overlapped (Unit {0}))
    → IsCounted (accept_held s) o
    → IsCounted 0 (Accept.release s o)
unfolding Accept.release
accept_release-IsCounted (Accept.initial listener) o c = c
accept_release-IsCounted (Accept.pending_single_stack listener stream) o c = omega arith
accept_release-IsCounted Accept.taken o c = c

-- `Accept`, of a listener.
abbrev pub accept : Listener → OverlappedFuture
accept listener = record {
  State = AcceptState;
  Item = ℕ × ℕ;
  Payload = Unit {0};
  Answers = Calls;
  start = Accept.initial listener;
  gone = Accept.taken;
  held = accept_held;
  poll = Accept.poll;
  release = λ cancel s o. Accept.release s o;
  held-start = refl;
  poll-Keeps = accept-Keeps;
  release-IsCounted = λ cancel s o c. accept_release-IsCounted s o c;
}
