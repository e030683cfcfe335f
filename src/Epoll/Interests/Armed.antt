-- ===== src/Epoll/Interests/Armed.antt =====
-- What the kernel was last asked to watch for, against the interests that wait.
use complete_io.Base.{
  ℕ, suc, ◌⊎◌, inl, inr, Bool-cases, subst, ◌≡◌, refl, sym, ◌∙◌, true, false, Option, none, some,
  List, [], ◌∷◌, ◌++◌, map, length, IoError, Result, ok, err, arith,
}
use complete_io.Epoll.Mask.{EventMask, empty, edge_one_shot, union, contains}
use complete_io.Epoll.MaskLaws.{union_of_contains, contains-union_right}
use complete_io.Epoll.Interests.{
  World, Call, ctl_mod, delivered, registered, attempted, notified, fold_masks, masks, push,
  add_interest,
}
use complete_io.Epoll.Interests.Wakeup.{Handled, rearmed, rearm_result}

-- The events that the descriptor is armed for: those of the last `epoll_ctl` that succeeded, and
-- none after a delivery, since the registration is one-shot.
abbrev pub armed : List Call → EventMask
armed [] = empty
armed (ctl_mod m _ none ∷ log) = m
armed (ctl_mod _ _ (some _) ∷ log) = armed log
armed (delivered _ ∷ log) = empty
armed (registered _ _ ∷ log) = armed log
armed (notified _ ∷ log) = armed log
armed (attempted ∷ log) = armed log

-- The kernel watches for exactly what the waiting interests ask for.
abbrev pub IsArmed : World → Type 0
IsArmed w = armed w.log ≡ masks w.interests

-- The same, but a registration with nothing to wait for may be armed for anything.
abbrev pub IsWatched : World → Type 0
IsWatched w = (masks w.interests ≡ empty) ⊎ IsArmed w

fold_masks-append :
    (m : EventMask) (xs : List (EventMask × ℕ)) (x : EventMask × ℕ)
    → fold_masks m (xs ++ x ∷ []) ≡ union (fold_masks m xs) x.0
fold_masks-append m [] x = refl
fold_masks-append m ((k, _) ∷ xs) x = fold_masks-append (union m k) xs x

abbrev refused : ℕ → EventMask → World → IoError → World
refused me events w e =
    let v = push me events w in
    record v { log = ctl_mod (union (masks w.interests) events) edge_one_shot (some e) ∷ v.log }

module _ (kernel : ℕ → Option IoError) where
  -- An interest that is added without an error is armed, with all those before it.
  pub add_interest-IsArmed :
      (me : ℕ) (events : EventMask) (w : World) (id : ℕ)
      → IsArmed w
      → (add_interest kernel me events w).0 ≡ ok id
      → IsArmed (add_interest kernel me events w).1
  unfolding add_interest
  add_interest-IsArmed me events w id a r = ground (
    arith,
    fold_masks-append empty w.interests (events, w.next),
    union_of_contains (masks w.interests) events,
  )

  added-IsArmed :
      (me : ℕ) (events : EventMask) (w : World) (id : ℕ)
      → contains (masks w.interests) events ≡ false
      → (add_interest kernel me events w).0 ≡ ok id
      → IsArmed (add_interest kernel me events w).1
  unfolding add_interest
  added-IsArmed me events w id c r =
      ground (arith, fold_masks-append empty w.interests (events, w.next))

  covered-masks :
      (me : ℕ) (events : EventMask) (w : World)
      → contains (masks w.interests) events ≡ true
      → masks w.interests ≡ empty
      → masks (add_interest kernel me events w).1.interests ≡ empty
  unfolding add_interest
  covered-masks me events w c e = ground (
    arith,
    fold_masks-append empty w.interests (events, w.next),
    union_of_contains (masks w.interests) events,
  )

  pub add_interest-IsWatched :
      (me : ℕ) (events : EventMask) (w : World) (id : ℕ)
      → IsWatched w
      → (add_interest kernel me events w).0 ≡ ok id
      → IsWatched (add_interest kernel me events w).1
  add_interest-IsWatched me events w id (inr a) r = inr (add_interest-IsArmed me events w id a r)
  add_interest-IsWatched me events w id (inl e) r =
      elim (Bool-cases (contains (masks w.interests) events)) [
        | inl c ↦ inl (covered-masks me events w c e)
        | inr c ↦ inr (added-IsArmed me events w id c r)
      ]

  rearmed-watched :
      (kept : List (EventMask × ℕ)) (log : List Call)
      → rearm_result kernel kept log ≡ ok tt
      → (masks kept ≡ empty) ⊎ (armed (rearmed kernel kept log) ≡ masks kept)
  rearmed-watched [] log r = inl refl
  rearmed-watched (x ∷ xs) log r = inr (ground arith)

  -- What `handle_event` leaves waiting is armed, unless it leaves nothing.
  pub Handled-IsWatched :
      {events : EventMask} {w : World} {r : Result (Unit {0})} {v : World}
      → Handled kernel events w r v
      → r ≡ ok tt
      → IsWatched v
  Handled-IsWatched {w} {v} h e =
      subst (λ l. (masks v.interests ≡ empty) ⊎ (armed l ≡ masks v.interests)) (sym h.log)
        (rearmed-watched v.interests (map notified h.woken ++ w.log) (sym h.result ∙ e))

  add_covered :
      (me : ℕ) (events : EventMask) (w : World)
      → contains (masks w.interests) events ≡ true
      → add_interest kernel me events w ≡ (ok w.next, push me events w)
  unfolding add_interest
  add_covered me events w c = rw c

  add_refused :
      (me : ℕ) (events : EventMask) (w : World) (e : IoError)
      → contains (masks w.interests) events ≡ false
      → kernel (suc (length w.log)) ≡ some e
      → add_interest kernel me events w ≡ (err e, refused me events w e)
  unfolding add_interest
  add_refused me events w e c k = rw (c, k)

  -- An interest whose `add_interest` fails stays behind. When the same events are asked for again,
  -- by any task, that succeeds, and still the kernel is not armed for them.
  pub failed_add_interest :
      (me me' : ℕ) (events : EventMask) (w : World) (e : IoError)
      → contains (masks w.interests) events ≡ false
      → IsArmed w
      → kernel (suc (length w.log)) ≡ some e
      → let w1 = (add_interest kernel me events w).1 in
        ((add_interest kernel me events w).0 ≡ err e)
        × ((add_interest kernel me' events w1).0 ≡ ok (suc w.next))
        × (contains (armed (add_interest kernel me' events w1).1.log) events ≡ false)
  failed_add_interest me me' events w e c a k =
      rw (add_refused me events w e c k, add_covered me' events (refused me events w e) covered)
        (refl, refl, rw a c)
    where
      covered : contains (masks (w.interests ++ (events, w.next) ∷ [])) events ≡ true
      covered =
          rw (fold_masks-append empty w.interests (events, w.next))
            (contains-union_right (masks w.interests) events)
