-- ===== src/Iocp/Events/Kept.antt =====
-- src/iocp/mod.rs: what was posted and what completed is, in order, what the packets that turns took and
-- those of the port are for, and what was handled and notified is what those that turns took were for.
use complete_io.Base.{
  ℕ, ◌≡◌, refl, sym, ap, ◌∙◌, subst, false, Option, none, some, List, [], ◌∷◌, ◌++◌, append_assoc,
  append-nil, of_some, Perm,
}
use mathlib.Core.List.Perm
use complete_io.Iocp.Timeouts.{Duration}
use complete_io.Iocp.{
  Packet, Action, notify_task, callback, dispatch, poll_iocp, future_notify_iocp_token,
}
use complete_io.Iocp.Events.{Delivery, Port, new_port, lookup, perform, dequeue, pick, finish_turn}
use complete_io.Iocp.Events.Order.{
  gather-snoc, gather-pick, delivers_to, owes, Known, pending, operations, AllKnown,
  AllKnown-append, AllKnown-middle, AllKnown-pick,
}

-- All packets there ever were, in their order.
abbrev pub all : Port → List Packet
all p = p.taken ++ p.packets

-- Every packet is for a handler of the table or for a task. In order, what all packets are for is what
-- was posted and what completed. What was handled and notified, with what the running packets are for,
-- is what the taken ones are for, in some order.
pub record Inv (p : Port) : Type 0 where
  pub known : AllKnown p.iocp_id p.event_table (all p)
  pub running_known : AllKnown p.iocp_id p.event_table p.running
  pub odd : lookup future_notify_iocp_token p.event_table ≡ none
  pub calm : p.wild ≡ false
  pub posts_in_order : pending p.iocp_id p.event_table (all p) ≡ p.posted
  pub completions_in_order : operations p.iocp_id (all p) ≡ p.completed
  pub handled_once :
      Perm
        (p.handled ++ pending p.iocp_id p.event_table p.running)
        (pending p.iocp_id p.event_table p.taken)
  pub notified_once :
      Perm (p.notified ++ operations p.iocp_id p.running) (operations p.iocp_id p.taken)

pub new_port-Inv : (id : ℕ) → Inv (new_port id)
new_port-Inv id = record {
  known = tt;
  running_known = tt;
  odd = refl;
  calm = refl;
  posts_in_order = refl;
  completions_in_order = refl;
  handled_once = Perm.refl [];
  notified_once = Perm.refl [];
}

-- A packet is queued, which is for `ds` and `os`.
pub queued-Inv :
    (p : Port) (q : Packet) (a : Action) (ds : List Delivery) (os : List ℕ)
    → Inv p
    → dispatch p.iocp_id q ≡ a
    → Known p.event_table a
    → delivers_to p.event_table a ≡ ds
    → owes a ≡ os
    → Inv (record p {
      packets = p.packets ++ q ∷ [];
      posted = p.posted ++ ds;
      completed = p.completed ++ os;
    })
queued-Inv p q a ds os v e k d o =
    let same : all p ++ q ∷ [] ≡ p.taken ++ (p.packets ++ q ∷ []) =
      append_assoc p.taken p.packets (q ∷ []) in
    record {
      known = subst (AllKnown p.iocp_id p.event_table) same (
          AllKnown-append p.iocp_id p.event_table (all p) q v.known
            (subst (Known p.event_table) (sym e) k));
      running_known = v.running_known;
      odd = v.odd;
      calm = v.calm;
      posts_in_order =
          ap (pending p.iocp_id p.event_table) (sym same)
          ∙ gather-snoc _ (all p) q
          ∙ ap (◌++ delivers_to p.event_table (dispatch p.iocp_id q)) v.posts_in_order
          ∙ ap (p.posted ++◌) (ap (delivers_to p.event_table) e ∙ d);
      completions_in_order =
          ap (operations p.iocp_id) (sym same)
          ∙ gather-snoc _ (all p) q
          ∙ ap (◌++ owes (dispatch p.iocp_id q)) v.completions_in_order
          ∙ ap (p.completed ++◌) (ap owes e ∙ o);
      handled_once = v.handled_once;
      notified_once = v.notified_once;
    }

module _ {A : Type 0} where
  grown_both :
      (h r d : List A) {t r' t' : List A}
      → r' ≡ r ++ d
      → t' ≡ t ++ d
      → Perm (h ++ r) t
      → Perm (h ++ r') t'
  grown_both h r d {t} {r'} {t'} er et v =
      subst (λ m. Perm (h ++ m) t') (sym er)
        (subst (Perm (h ++ (r ++ d))) (sym et)
          (subst (λ m. Perm m (t ++ d)) (append_assoc h r d) (Perm.append_right d v)))

  passed_on :
      (h d r' : List A) {r t : List A}
      → Perm r (d ++ r')
      → Perm (h ++ r) t
      → Perm ((h ++ d) ++ r') t
  passed_on h d r' {r} {t} s v =
      subst (λ m. Perm m t) (sym (append_assoc h d r'))
        (Perm.trans (Perm.append_left h (Perm.symm s)) v)

pub dequeue-Inv :
    (p : Port) (q : Packet) (qs : List Packet)
    → Inv p
    → p.packets ≡ q ∷ qs
    → Inv (record p { packets = qs; running = p.running ++ q ∷ []; taken = p.taken ++ q ∷ [] })
dequeue-Inv p q qs v first =
    let same : (p.taken ++ q ∷ []) ++ qs ≡ all p =
      append_assoc p.taken (q ∷ []) qs ∙ ap (p.taken ++◌) (sym first) in
    record {
      known = subst (AllKnown p.iocp_id p.event_table) (sym same) v.known;
      running_known = AllKnown-append p.iocp_id p.event_table p.running q v.running_known (
          AllKnown-middle p.iocp_id p.event_table p.taken q qs
            (subst (λ m. AllKnown p.iocp_id p.event_table (p.taken ++ m)) first v.known));
      odd = v.odd;
      calm = v.calm;
      posts_in_order = ap (pending p.iocp_id p.event_table) same ∙ v.posts_in_order;
      completions_in_order = ap (operations p.iocp_id) same ∙ v.completions_in_order;
      handled_once =
          grown_both p.handled _ _ (gather-snoc _ p.running q) (gather-snoc _ p.taken q)
            v.handled_once;
      notified_once =
          grown_both p.notified _ _ (gather-snoc _ p.running q) (gather-snoc _ p.taken q)
            v.notified_once;
    }

-- What the arm for a known packet does.
pub performed :
    (a : Action) (p : Port)
    → Known p.event_table a
    → perform (a ∷ []) p ≡ record p {
      handled = p.handled ++ delivers_to p.event_table a;
      notified = p.notified ++ owes a;
    }
unfolding perform
performed (notify_task o) p k =
    ap (λ m. record p { handled = m; notified = p.notified ++ o ∷ [] }) (sym (append-nil p.handled))
performed (callback pointer tag d) p (h, at) = rw at (
    ap
      (λ m. record p {
        handled = p.handled ++ record { handler = h; tag = tag; data_word = d } ∷ [];
        notified = m;
      })
      (sym (append-nil p.notified)))

pub finished-Inv :
    (k : ℕ) (q : Packet) (rest : List Packet) (p : Port)
    → Inv p
    → pick k p.running ≡ some (q, rest)
    → Inv (perform (dispatch p.iocp_id q ∷ []) (record p { running = rest }))
finished-Inv k q rest p v e =
    let (here, others) =
      AllKnown-pick p.iocp_id p.event_table k p.running q rest v.running_known e in
    subst Inv (sym (performed (dispatch p.iocp_id q) (record p { running = rest }) here)) (record {
      known = v.known;
      running_known = others;
      odd = v.odd;
      calm = v.calm;
      posts_in_order = v.posts_in_order;
      completions_in_order = v.completions_in_order;
      handled_once = passed_on p.handled _ _ (gather-pick _ k p.running q rest e) v.handled_once;
      notified_once = passed_on p.notified _ _ (gather-pick _ k p.running q rest e) v.notified_once;
    })

pub dequeues-Inv :
    (qs : List Packet) (p u : Port) → Inv p → p.packets ≡ qs → dequeue qs p ≡ some u → Inv u
unfolding dequeue
dequeues-Inv [] p u v e t = cc
dequeues-Inv (q ∷ qs) p u v e t = of_some Inv _ u t (dequeue-Inv p q qs v e)

pub finish_turn-Inv :
    (timeout : Option Duration) (k : ℕ) (o : Option (Packet × List Packet)) (p u : Port)
    → Inv p
    → pick k p.running ≡ o
    → finish_turn timeout o p ≡ some u
    → Inv u
unfolding finish_turn poll_iocp
finish_turn-Inv timeout k none p u v e t = cc
finish_turn-Inv timeout k (some (q, rest)) p u v e t =
    of_some Inv _ u t (finished-Inv k q rest p v e)
