-- ===== src/Epoll/Registration/Lifetime.antt =====
-- src/epoll/mod.rs: the value of a registration lives as long as its handles, and its allocation as
-- long as epoll has the pointer.
use complete_io.Base.{
  ℕ, zero, suc, ◌<◌, ◌≤◌, ◌≡◌, refl, sym, ap, ◌∙◌, inl, inr, true, false, Option, none, some,
  Option-cases, List, [], ◌∷◌, IoError, ◌==◌, if◌then◌else◌, then_some, else_some, of_some, arith,
}
use complete_io.Epoll.Registration.{
  Cell, freed, register_fd_raw, drop_registration, drop_handle, dispatch, return_handler, Event,
  clones, drops, closes, fetches, dispatches, returns, possible, step, run, run_rest,
}

-- The value holds its queue and its handler exactly while there is a handle; every running handler
-- has one; and the weak pointer is there while the kernel has it, or there is a handle.
pub record IsAlive (c : Cell) : Type 0 where
  pub queue_held : c.queue_refs ≡ (if c.strong == 0 then 0 else 1)
  pub handler_held : c.handler_refs ≡ (if c.strong == 0 then 0 else 1)
  pub running : c.handlers ≤ c.strong
  pub weak_held : c.in_epoll ≡ true → c.weak ≡ 1
  pub weak_live : 0 < c.strong → c.weak ≡ 1

new-IsAlive : IsAlive (register_fd_raw none).1
unfolding register_fd_raw
new-IsAlive = ground arith

drop_handle-IsAlive :
    (del : Option IoError) (n : ℕ) (c d : Cell)
    → c.strong ≡ n
    → c.handlers < c.strong
    → IsAlive c
    → drop_handle del n c ≡ some d
    → IsAlive d
unfolding drop_handle
drop_handle-IsAlive del zero c d q h v e = cc
drop_handle-IsAlive none (suc zero) c d q h v e = ground arith
drop_handle-IsAlive (some x) (suc zero) c d q h v e = ground arith
drop_handle-IsAlive del (suc (suc n)) c d q h v e = ground arith

dispatch-IsAlive : (n : ℕ) (c d : Cell) → IsAlive c → dispatch n c ≡ some d → IsAlive d
unfolding dispatch
dispatch-IsAlive zero c d v e = cc
dispatch-IsAlive (suc n) c d v e = ground arith

return_handler-IsAlive :
    (del : Option IoError) (n : ℕ) (c d : Cell)
    → c.handlers ≡ n
    → IsAlive c
    → return_handler del n c ≡ some d
    → IsAlive d
unfolding return_handler
return_handler-IsAlive del zero c d q v e = cc
return_handler-IsAlive del (suc n) c d q v e =
    drop_handle-IsAlive del c.strong (record c { handlers = n }) d refl (omega (arith, v.running))
      (record {
        queue_held = v.queue_held;
        handler_held = v.handler_held;
        running = omega (arith, v.running);
        weak_held = v.weak_held;
        weak_live = v.weak_live;
      })
      e

step-IsAlive : (e : Event) (c d : Cell) → IsAlive c → step e c ≡ some d → IsAlive d
unfolding step
step-IsAlive clones c d v e = ground arith
step-IsAlive (drops del) c d v e =
    let (fits, rest) = then_some (possible del c) _ d e in
    let (more, out) = else_some (c.strong == c.handlers) _ d rest in
    drop_handle-IsAlive del c.strong c d refl (ground (arith, v.running)) v out
step-IsAlive closes c d v e = ground arith
step-IsAlive fetches c d v e = ground arith
step-IsAlive dispatches c d v e = dispatch-IsAlive c.fetched c d v e
step-IsAlive (returns del) c d v e =
    return_handler-IsAlive del c.handlers c d refl v (then_some (possible del c) _ d e).1

pub run-step :
    (e : Event) (es : List Event) (c d x : Cell)
    → step e c ≡ some x
    → run (e ∷ es) c ≡ some d
    → run es x ≡ some d
unfolding run
run-step e es c d x s q = sym (ap (run_rest (run es)) s) ∙ q

run-IsAlive_from : (es : List Event) (c d : Cell) → IsAlive c → run es c ≡ some d → IsAlive d
unfolding run
run-IsAlive_from [] c d v q = of_some IsAlive c d q v
run-IsAlive_from (e ∷ es) c d v q = elim (Option-cases (step e c)) [
  | inl stuck ↦ cc (sym (ap (run_rest (run es)) stuck) ∙ q)
  | inr (x, moved) ↦
      run-IsAlive_from es x d (step-IsAlive e c x v moved) (run-step e es c d x moved q)
]

-- In every state that a registration reaches after a successful EPOLL_CTL_ADD: its value holds its queue
-- and its handler exactly while it has a handle, each handler that runs has one, and the weak pointer
-- is there while the kernel has it or a handle is left.
pub run-IsAlive :
    (es : List Event) (c : Cell) → run es (register_fd_raw none).1 ≡ some c → IsAlive c
run-IsAlive es c q = run-IsAlive_from es _ c new-IsAlive q

-- While the kernel has its pointer, the allocation of a registration is not freed, and an event that
-- is dispatched touches no freed memory: it calls the handler exactly if there is a handle.
registered_is_allocated :
    (es : List Event) (c : Cell) (n : ℕ)
    → run es (register_fd_raw none).1 ≡ some c
    → c.in_epoll ≡ true
    → c.fetched ≡ suc n
    → (d : Cell) × (step dispatches c ≡ some d)
      × (d.dangling ≡ c.dangling)
      × (d.handlers ≡ (if c.strong == 0 then c.handlers else suc c.handlers))
unfolding step dispatch
registered_is_allocated es c n q on waits =
    let v = run-IsAlive es c q in
    let held : freed c ≡ false = ground (arith, v.weak_held on) in
    (
      (if c.strong == 0
          then record c { fetched = n }
          else record c { fetched = n; strong = suc c.strong; handlers = suc c.handlers }),
      ap (λ m. dispatch m c) waits
          ∙ ap
              (λ b. some (
                if b
                then record c { fetched = n; dangling = true }
                else if c.strong == 0
                then record c { fetched = n }
                else record c { fetched = n; strong = suc c.strong; handlers = suc c.handlers }))
              held,
      ground arith,
      ground arith,
    )

-- When the last handle is dropped while the kernel has the descriptor, and EPOLL_CTL_DEL succeeds,
-- the allocation, the queue and the handler are released, and the kernel has no pointer.
last_drop_releases :
    (es : List Event) (c : Cell)
    → run es (register_fd_raw none).1 ≡ some c
    → c.in_epoll ≡ true
    → c.strong ≡ 1
    → c.handlers ≡ 0
    → (d : Cell) × (step (drops none) c ≡ some d)
      × (freed d ≡ true)
      × (d.in_epoll ≡ false)
      × (d.queue_refs ≡ 0)
      × (d.handler_refs ≡ 0)
unfolding step drop_handle drop_registration
last_drop_releases es c q on one quiet =
    let v = run-IsAlive es c q in
    (
      drop_registration none (record c { strong = 0 }),
      rw (on, one, quiet) refl,
      ground (arith, v.weak_held on),
      refl,
      refl,
      refl,
    )
