-- ===== src/Epoll/Interests/Wakeup.antt =====
-- What an event does to the interests of a registration (`handle_event`, and `FutureInterest::poll`
-- after it).
use complete_io.Base.{
  ℕ, suc, ◌≡◌, refl, ◌∙◌, ◌||◌, Option, none, some, List, [], ◌∷◌, ◌++◌, map, Perm, length, IoError,
  Result, ok, panic, arith,
}
use complete_io.Epoll.Mask.{EventMask, edge_one_shot, union}
use complete_io.Epoll.Interests.{
  World, Call, ctl_mod, notified, fold_masks, masks, rearm, handle_event,
}
use complete_io.Epoll.Interests.Loop.{elem, woken_by, kept_by, remaining_after, Swept, loop-Sweep}

remaining_after-some :
    (m : EventMask) (xs : List (EventMask × ℕ))
    → remaining_after (some m) xs ≡ some (fold_masks m xs)
remaining_after-some m [] = refl
remaining_after-some m ((k, _) ∷ xs) = remaining_after-some (union m k) xs

module _ (kernel : ℕ → Option IoError) where
  -- The log and the result of `handle_event`, when `kept` is left and the log was `log` before.
  abbrev pub rearmed : List (EventMask × ℕ) → List Call → List Call
  rearmed [] log = log
  rearmed (x ∷ xs) log = ctl_mod (masks (x ∷ xs)) edge_one_shot (kernel (length log)) ∷ log

  abbrev pub rearm_result : List (EventMask × ℕ) → List Call → Result (Unit {0})
  rearm_result [] log = ok tt
  rearm_result (x ∷ xs) log = elim (kernel (length log)) [ none ↦ ok tt | some _ ↦ panic ]

  pub record Handled (events : EventMask) (w : World) (r : Result (Unit {0})) (w' : World)
      : Type 0 where
    pub woken : List ℕ
    pub kept_perm : Perm w'.interests (kept_by events w.interests)
    pub woken_perm : Perm woken (map (λ x. x.1) (woken_by events w.interests))
    pub fired : (i : ℕ) → w'.fired i ≡ (elem i woken || w.fired i)
    pub next : w'.next ≡ w.next
    pub log : w'.log ≡ rearmed w'.interests (map notified woken ++ w.log)
    pub result : r ≡ rearm_result w'.interests (map notified woken ++ w.log)

  record Rearmed (kept : List (EventMask × ℕ)) (w : World) (r : Result (Unit {0})) (w' : World)
      : Type 0 where
    interests : w'.interests ≡ w.interests
    fired : w'.fired ≡ w.fired
    next : w'.next ≡ w.next
    log : w'.log ≡ rearmed kept w.log
    result : r ≡ rearm_result kept w.log

  rearm-Rearmed :
      (kept : List (EventMask × ℕ)) (r : Option EventMask) (w : World)
      → r ≡ remaining_after none kept
      → Rearmed kept w (rearm kernel (r, w)).0 (rearm kernel (r, w)).1
  unfolding rearm
  rearm-Rearmed [] r w e =
      rw e (record { interests = refl; fired = refl; next = refl; log = refl; result = refl })
  rearm-Rearmed ((m, i) ∷ xs) r w e = rw (e ∙ remaining_after-some _ xs) (record {
    interests = ground arith;
    fired = ground arith;
    next = ground arith;
    log = ground arith;
    result = ground arith;
  })

  Swept-Handled :
      {events : EventMask} {w : World} {r' : Option EventMask} {w' : World} {r : Result (Unit {0})}
      {v : World} (s : Swept events [] w.interests none w r' w')
      → Rearmed s.kept w' r v
      → Handled events w r v
  Swept-Handled s q = record {
    woken = s.woken;
    kept_perm = rw (q.interests, s.interests) s.kept_perm;
    woken_perm = s.woken_perm;
    fired = λ i. rw q.fired (s.fired i);
    next = q.next ∙ s.next;
    log = rw (q.interests, s.interests, ← s.log) q.log;
    result = rw (q.interests, s.interests, ← s.log) q.result;
  }

  -- `handle_event` always comes to an end.
  pub handle_event-Handled :
      (events : EventMask) (w : World)
      → (r : Result (Unit {0})) × (w' : World) × (handle_event kernel events w ≡ some (r, w'))
        × Handled events w r w'
  unfolding handle_event
  handle_event-Handled events w =
      let (r', w', out, s) =
        loop-Sweep (suc (length w.interests)) [] w.interests none events w (omega arith) refl in
      (
        (rearm kernel (r', w')).0,
        (rearm kernel (r', w')).1,
        rw (out, handle_event),
        Swept-Handled s (rearm-Rearmed s.kept r' w' s.remaining),
      )
