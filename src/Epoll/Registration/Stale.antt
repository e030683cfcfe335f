-- ===== src/Epoll/Registration/Stale.antt =====
-- src/epoll/mod.rs: a registration that goes while events of it are in the buffer of a turn, and one
-- whose descriptor is closed first, as the fields of `_TcpStream`, `_TcpListener`, `_UdpSocket` and the
-- `Drop` of `_CustomEvent` do.
use complete_io.Base.{
  ℕ, zero, suc, ◌≡◌, refl, sym, ap, ◌∙◌, inl, inr, true, false, Option, none, some, Option-cases,
  List, [], ◌∷◌, IoError, ◌==◌, then_some, else_some, of_some, arith,
}
use complete_io.Epoll.Registration.{
  Cell, freed, register_fd_raw, drop_registration, drop_handle, dispatch, return_handler, Event,
  clones, drops, closes, fetches, dispatches, returns, possible, step, run, run_rest,
}
use complete_io.Epoll.Registration.Lifetime.{run-IsAlive, run-step}

-- If the last handle is dropped, and EPOLL_CTL_DEL succeeds, while an event with its pointer waits in
-- the buffer of a turn, the dispatch of that event uses freed memory.
pub stale_event_dangles :
    (es : List Event) (c : Cell) (n : ℕ)
    → run es (register_fd_raw none).1 ≡ some c
    → c.in_epoll ≡ true
    → c.strong ≡ 1
    → c.handlers ≡ 0
    → c.fetched ≡ suc n
    → (d : Cell) × (run (drops none ∷ dispatches ∷ []) c ≡ some d) × (d.dangling ≡ true)
unfolding run step dispatch drop_handle drop_registration
stale_event_dangles es c n q on one quiet waits =
    let v = run-IsAlive es c q in
    (
      record (drop_registration none (record c { strong = 0 })) { fetched = n; dangling = true },
      rw (on, one, quiet, waits) (ground (arith, v.weak_held on)),
      refl,
    )

-- The weak pointer is left, and no handle.
record Leaks (c : Cell) : Type 0 where
  strong : c.strong ≡ 0
  handlers : c.handlers ≡ 0
  weak : c.weak ≡ 1

dispatch-Leaks : (n : ℕ) (c d : Cell) → Leaks c → dispatch n c ≡ some d → Leaks d
unfolding dispatch
dispatch-Leaks zero c d v e = cc
dispatch-Leaks (suc n) c d v e = ground arith

return_handler-none :
    (del : Option IoError) (n : ℕ) (c : Cell) → n ≡ 0 → return_handler del n c ≡ none
unfolding return_handler
return_handler-none del zero c q = refl
return_handler-none del (suc n) c q = absurd (omega arith)

step-Leaks : (e : Event) (c d : Cell) → Leaks c → step e c ≡ some d → Leaks d
unfolding step
step-Leaks clones c d v e = ground arith
step-Leaks (drops del) c d v e =
    let (fits, rest) = then_some (possible del c) _ d e in
    let (more, out) = else_some (c.strong == c.handlers) _ d rest in absurd (ground arith)
step-Leaks closes c d v e = ground arith
step-Leaks fetches c d v e = ground arith
step-Leaks dispatches c d v e = dispatch-Leaks c.fetched c d v e
step-Leaks (returns del) c d v e =
    let out = (then_some (possible del c) _ d e).1 in
    cc (return_handler-none del c.handlers c v.handlers)

run-Leaks : (es : List Event) (c d : Cell) → Leaks c → run es c ≡ some d → Leaks d
unfolding run
run-Leaks [] c d v q = of_some Leaks c d q v
run-Leaks (e ∷ es) c d v q = elim (Option-cases (step e c)) [
  | inl stuck ↦ cc (sym (ap (run_rest (run es)) stuck) ∙ q)
  | inr (x, moved) ↦ run-Leaks es x d (step-Leaks e c x v moved) (run-step e es c d x moved q)
]

dropped :
    (e : IoError) (c : Cell)
    → c.strong ≡ 1
    → c.handlers ≡ 0
    → step (drops (some e)) c ≡ some (drop_registration (some e) (record c { strong = 0 }))
unfolding step drop_handle
dropped e c one quiet = rw (one, quiet) refl

leaks :
    (e : IoError) (c : Cell)
    → c.weak ≡ 1
    → c.handlers ≡ 0
    → Leaks (drop_registration (some e) (record c { strong = 0 }))
unfolding drop_registration
leaks e c held quiet = record { strong = refl; handlers = quiet; weak = held }

-- If the descriptor is closed before the last handle goes, EPOLL_CTL_DEL cannot succeed, and after the
-- drop, with its error, the allocation is never freed, whatever else happens.
pub closed_first_leaks :
    (es more : List Event) (c u : Cell) (e : IoError)
    → run es (register_fd_raw none).1 ≡ some c
    → c.strong ≡ 1
    → c.handlers ≡ 0
    → run (closes ∷ drops (some e) ∷ more) c ≡ some u
    → (run (closes ∷ drops none ∷ more) c ≡ none) × (u.strong ≡ 0) × (freed u ≡ false)
closed_first_leaks es more c u e q one quiet r =
    let v = run-IsAlive es c q in
    let shut = record c { in_epoll = false } in
    let d = drop_registration (some e) (record shut { strong = 0 }) in
    let first : step closes c ≡ some shut = unfold step in refl in
    let second : step (drops (some e)) shut ≡ some d = dropped e shut one quiet in
    let rest : run more d ≡ some u =
      run-step (drops (some e)) more shut u d second
        (run-step closes (drops (some e) ∷ more) c u shut first r) in
    let w = run-Leaks more d u (leaks e shut (v.weak_live (omega arith)) quiet) rest in
    (unfold run step in refl, w.strong, ground (arith, w.strong, w.weak))
