-- ===== src/Iocp/Events/Steps.antt =====
-- src/iocp/mod.rs: each step of a completion port keeps what its packets are for.
use complete_io.Base.{
  ℕ, ◌≡◌, ◌≢◌, refl, sym, ap, ◌∙◌, subst, Perm, inl, inr, Bool, true, false, Bool-cases, Option,
  none, some, Option-cases, List, [], ◌∷◌, ◌++◌, append-nil, ok, err, panic, if◌then◌else◌, ◌==◌,
  ==_iff, then_some, of_some, arith,
}
use complete_io.Iocp.{
  Reply, got, failed, EventTag, Packet, notify_task, callback, post_custom_event, dispatch,
  future_notify_iocp_token,
}
use complete_io.Iocp.Posted.{dispatch-custom}
use complete_io.Iocp.Events.{
  Port, new_port, lookup, new_custom_event, queued, Event, makes, posts, completes, dequeues,
  handles, pick, fits, step, run, run_rest,
}
use complete_io.Iocp.Events.Order.{found, lookup-none, AllKnown-grown, AllKnown-front, pending}
use complete_io.Iocp.Events.Kept.{Inv, new_port-Inv, queued-Inv, dequeues-Inv, finish_turn-Inv, all}

custom-Inv :
    (p : Port) (q : Packet) (tag : EventTag) (h : ℕ)
    → Inv p
    → lookup tag.callback_ptr p.event_table ≡ some h
    → dispatch p.iocp_id q ≡ callback tag.callback_ptr tag q.overlapped
    → Inv (record p {
      packets = p.packets ++ q ∷ [];
      posted = p.posted ++ record { handler = h; tag = tag; data_word = q.overlapped } ∷ [];
    })
custom-Inv p q tag h v at e =
    let w =
      queued-Inv p q (callback tag.callback_ptr tag q.overlapped) (found (some h) tag q.overlapped)
        [] v e (h, at) (ap (λ o. found o tag q.overlapped) at) refl in
    record {
      known = w.known;
      odd = w.odd;
      calm = w.calm;
      running_known = w.running_known;
      posts_in_order = w.posts_in_order;
      completions_in_order = w.completions_in_order ∙ append-nil p.completed;
      handled_once = w.handled_once;
      notified_once = w.notified_once;
    }

got-Inv :
    (p u : Port) (tag : EventTag) (d : ℕ) (o : Option ℕ)
    → lookup tag.callback_ptr p.event_table ≡ o
    → tag.iocp_id ≡ p.iocp_id
    → Inv p
    → queued (ok (record { token = tag.callback_ptr; overlapped = d })) o tag p ≡ some u
    → Inv u
got-Inv p u tag d none at same v e = cc
got-Inv p u tag d (some h) at same v e =
    let no_task : tag.callback_ptr ≢ future_notify_iocp_token =
      λ r. cc (sym v.odd ∙ sym (ap (λ a. lookup a p.event_table) r) ∙ at) in
    of_some Inv _ u e (
      custom-Inv p (record { token = tag.callback_ptr; overlapped = d }) tag h v at
        (dispatch-custom p.iocp_id tag d no_task same))

post-Inv :
    (p u : Port) (tag : EventTag) (d : ℕ) (answer : Reply (Unit {0})) (o : Option ℕ)
    → lookup tag.callback_ptr p.event_table ≡ o
    → Inv p
    → queued (post_custom_event p.iocp_id answer tag d) o tag p ≡ some u
    → Inv u
unfolding post_custom_event
post-Inv p u tag d (got x) o at v e =
    let q : Packet = record { token = tag.callback_ptr; overlapped = d } in
    let out = λ (b : Bool). queued (if b then ok q else panic) o tag p in
    elim (Bool-cases (tag.iocp_id == p.iocp_id)) [
      | inl same ↦
          got-Inv p u tag d o at ((==_iff tag.iocp_id p.iocp_id).0 same) v (sym (ap out same) ∙ e)
      | inr other ↦ of_some Inv p u (sym (ap out other) ∙ e) v
    ]
post-Inv p u tag d (failed x) o at v e =
    let out = λ (b : Bool). queued (if b then err x else panic) o tag p in
    elim (Bool-cases (tag.iocp_id == p.iocp_id)) [
      | inl same ↦ of_some Inv p u (sym (ap out same) ∙ e) v
      | inr other ↦ of_some Inv p u (sym (ap out other) ∙ e) v
    ]

fits_cases :
    (address : ℕ) (o : Option ℕ)
    → fits address o ≡ true
    → (o ≡ none) × ((address == future_notify_iocp_token) ≡ false)
fits_cases address none q = (refl, ground arith)
fits_cases address (some h) q = cc

made-Inv :
    (address handler : ℕ) (p : Port)
    → Inv p
    → (address == future_notify_iocp_token) ≡ false
    → Inv (record p { event_table = p.event_table ++ (address, handler) ∷ [] })
made-Inv address handler p v other =
    let entry : ℕ × ℕ = (address, handler) in
    let t = p.event_table in
    let (each, same) = AllKnown-grown p.iocp_id t entry (all p) v.known in
    let (running, waits) = AllKnown-grown p.iocp_id t entry p.running v.running_known in
    let (gone, took) =
      AllKnown-grown p.iocp_id t entry p.taken
        (AllKnown-front p.iocp_id t p.taken p.packets v.known) in
    record {
      known = each;
      running_known = running;
      odd = lookup-none t address future_notify_iocp_token handler v.odd other;
      calm = v.calm;
      posts_in_order = same ∙ v.posts_in_order;
      completions_in_order = v.completions_in_order;
      handled_once =
          subst (λ m. Perm (p.handled ++ m) (pending p.iocp_id (t ++ entry ∷ []) p.taken))
            (sym waits)
            (subst (Perm (p.handled ++ pending p.iocp_id t p.running)) (sym took) v.handled_once);
      notified_once = v.notified_once;
    }

completed-Inv :
    (o : ℕ) (p : Port)
    → Inv p
    → Inv (record p {
      packets = p.packets ++ record { token = future_notify_iocp_token; overlapped = o } ∷ [];
      completed = p.completed ++ o ∷ [];
    })
completed-Inv o p v =
    let w =
      queued-Inv p (record { token = future_notify_iocp_token; overlapped = o }) (notify_task o) []
        (o ∷ []) v (unfold dispatch in refl) tt refl refl in
    record {
      known = w.known;
      odd = w.odd;
      calm = w.calm;
      running_known = w.running_known;
      posts_in_order = w.posts_in_order ∙ append-nil p.posted;
      completions_in_order = w.completions_in_order;
      handled_once = w.handled_once;
      notified_once = w.notified_once;
    }

pub step-Inv : (e : Event) (p u : Port) → Inv p → step e p ≡ some u → Inv u
unfolding step new_custom_event
step-Inv (makes address handler) p u v e =
    let (room, made) = then_some (fits address (lookup address p.event_table)) _ u e in
    of_some Inv _ u made
      (made-Inv address handler p v (fits_cases address (lookup address p.event_table) room).1)
step-Inv (posts tag d answer) p u v e =
    post-Inv p u tag d answer (lookup tag.callback_ptr p.event_table) refl v e
step-Inv (completes o) p u v e = of_some Inv _ u e (completed-Inv o p v)
step-Inv dequeues p u v e = dequeues-Inv p.packets p u v refl e
step-Inv (handles k timeout) p u v e = finish_turn-Inv timeout k (pick k p.running) p u v refl e

run-Inv_from : (es : List Event) (p u : Port) → Inv p → run es p ≡ some u → Inv u
unfolding run
run-Inv_from [] p u v q = of_some Inv p u q v
run-Inv_from (e ∷ es) p u v q = elim (Option-cases (step e p)) [
  | inl stuck ↦ cc (sym (ap (run_rest (run es)) stuck) ∙ q)
  | inr (x, moved) ↦
      run-Inv_from es x u (step-Inv e p x v moved) (sym (ap (run_rest (run es)) moved) ∙ q)
]

pub run-Inv : (id : ℕ) (es : List Event) (p : Port) → run es (new_port id) ≡ some p → Inv p
run-Inv id es p q = run-Inv_from es (new_port id) p (new_port-Inv id) q
