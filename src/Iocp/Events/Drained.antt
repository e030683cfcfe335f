-- ===== src/Iocp/Events/Drained.antt =====
-- src/iocp/mod.rs: turns empty the port.
use complete_io.Base.{
  ℕ, ◌≡◌, refl, sym, ap, ◌∙◌, false, Option, some, List, [], ◌∷◌, ◌++◌, append-nil, append_assoc,
  Perm, subst, of_some, inl, inr, Option-cases,
}
use complete_io.Iocp.Timeouts.{Duration}
use complete_io.Iocp.{Packet, dispatch, poll_iocp}
use complete_io.Iocp.Events.{
  Port, new_port, dequeue, pick, finish_turn, Event, dequeues, handles, step, run, run_rest,
}
use complete_io.Iocp.Events.Order.{pending, operations, AllKnown-pick}
use complete_io.Iocp.Events.Kept.{Inv, all, dequeue-Inv, finished-Inv, performed}
use complete_io.Iocp.Events.Steps.{run-Inv}

run-append : (ds es : List Event) (p q : Port) → run ds p ≡ some q → run (ds ++ es) p ≡ run es q
unfolding run
run-append [] es p q e = of_some (λ x. run es p ≡ run es x) p q e refl
run-append (d ∷ ds) es p q e = elim (Option-cases (step d p)) [
  | inl stuck ↦ cc (sym (ap (run_rest (run ds)) stuck) ∙ e)
  | inr (x, moved) ↦
      ap (run_rest (run (ds ++ es))) moved
      ∙ run-append ds es x q (sym (ap (run_rest (run ds)) moved) ∙ e)
]

-- Some thread takes each of these packets.
abbrev pub dequeue_each : List Packet → List Event
dequeue_each [] = []
dequeue_each (q ∷ qs) = dequeues ∷ dequeue_each qs

dequeued :
    (qs : List Packet) (p : Port)
    → Inv p
    → p.packets ≡ qs
    → (u : Port) × (run (dequeue_each qs) p ≡ some u)
      × Inv u
      × (u.packets ≡ [])
      × (u.running ≡ p.running ++ qs)
      × (u.posted ≡ p.posted)
      × (u.completed ≡ p.completed)
unfolding run step dequeue
dequeued [] p v e = (p, refl, v, e, sym (append-nil p.running), refl, refl)
dequeued (q ∷ qs) p v e =
    let x : Port = record p {
      packets = qs;
      running = p.running ++ q ∷ [];
      taken = p.taken ++ q ∷ [];
    } in
    let (u, path, w, empty, same, posts, completions) =
      dequeued qs x (dequeue-Inv p q qs v e) refl in
    (
      u,
      ap (run_rest (run (dequeue_each qs))) (ap (λ m. dequeue m p) e) ∙ path,
      w,
      empty,
      same ∙ append_assoc p.running (q ∷ []) qs,
      posts,
      completions,
    )

module _ (timeout : Option Duration) where
  -- Each of these running packets comes to its handler or task, the first one first.
  abbrev pub handle_each : List Packet → List Event
  handle_each [] = []
  handle_each (q ∷ qs) = handles 0 timeout ∷ handle_each qs

  one_finishes :
      (q : Packet) (qs : List Packet) (p : Port)
      → Inv p
      → p.running ≡ q ∷ qs
      → (u : Port) × (step (handles 0 timeout) p ≡ some u)
        × Inv u
        × (u.packets ≡ p.packets)
        × (u.running ≡ qs)
        × (u.posted ≡ p.posted)
        × (u.completed ≡ p.completed)
  unfolding step finish_turn poll_iocp
  one_finishes q qs p v e =
      let first : pick 0 p.running ≡ some (q, qs) = ap (pick 0) e in
      let (here, others) =
        AllKnown-pick p.iocp_id p.event_table 0 p.running q qs v.running_known first in
      let does = performed (dispatch p.iocp_id q) (record p { running = qs }) here in
      (
        _,
        ap (λ o. finish_turn timeout o p) first ∙ ap some does,
        subst Inv does (finished-Inv 0 q qs p v first),
        refl,
        refl,
        refl,
        refl,
      )

  finished :
      (qs : List Packet) (p : Port)
      → Inv p
      → p.running ≡ qs
      → (u : Port) × (run (handle_each qs) p ≡ some u)
        × Inv u
        × (u.packets ≡ p.packets)
        × (u.running ≡ [])
        × (u.posted ≡ p.posted)
        × (u.completed ≡ p.completed)
  unfolding run
  finished [] p v e = (p, refl, v, refl, e, refl, refl)
  finished (q ∷ qs) p v e =
      let (x, moved, w, packets, left, posts, completions) = one_finishes q qs p v e in
      let (u, path, w', packets', none_left, posts', completions') = finished qs x w left in
      (
        u,
        ap (run_rest (run (handle_each qs))) moved ∙ path,
        w',
        packets' ∙ packets,
        none_left,
        posts' ∙ posts,
        completions' ∙ completions,
      )

  ended : {A : Type 0} (h r : List A) {t : List A} → r ≡ [] → Perm (h ++ r) t → Perm h t
  ended h r {t} e v = subst (λ m. Perm m t) (ap (h ++◌) e ∙ append-nil h) v

  -- Whatever handlers are made, tags posted and operations completed on a completion port, and however
  -- the turns of its clones take packets and call what these are for: when each packet that is left
  -- is taken, and what was taken comes to its call, then the packets have been taken in the order of
  -- the posts, each post that succeeded has called the handler of its tag, once, with that tag and
  -- its data, each completion has notified its task, once, and no other address was called.
  pub port_drains :
      (id : ℕ) (es : List Event) (p : Port)
      → run es (new_port id) ≡ some p
      → (u : Port) × (run (dequeue_each p.packets ++ handle_each (p.running ++ p.packets)) p
          ≡ some u)
        × (pending u.iocp_id u.event_table u.taken ≡ p.posted)
        × Perm u.handled p.posted
        × Perm u.notified p.completed
        × (u.wild ≡ false)
  port_drains id es p q =
      let (m, path, v, empty, waits, posts, completions) =
        dequeued p.packets p (run-Inv id es p q) refl in
      let (u, path', w, same, none_left, posts', completions') =
        finished (p.running ++ p.packets) m v waits in
      let whole : u.taken ≡ all u =
        sym (append-nil u.taken) ∙ ap (u.taken ++◌) (sym (same ∙ empty)) in
      let in_order =
        ap (pending u.iocp_id u.event_table) whole ∙ w.posts_in_order ∙ posts' ∙ posts in
      let operations_in_order =
        ap (operations u.iocp_id) whole ∙ w.completions_in_order ∙ completions' ∙ completions in
      (
        u,
        run-append (dequeue_each p.packets) (handle_each (p.running ++ p.packets)) p m path ∙ path',
        in_order,
        subst (Perm u.handled) in_order
            (ended u.handled _ (ap (pending u.iocp_id u.event_table) none_left) w.handled_once),
        subst (Perm u.notified) operations_in_order
            (ended u.notified _ (ap (operations u.iocp_id) none_left) w.notified_once),
        w.calm,
      )
