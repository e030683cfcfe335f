-- ===== src/Epoll/Interests/Mixed.antt =====
-- Which events wake which interests: a hang-up or an error wakes all, and readiness for reading and
-- writing at once wakes none of the interests that the futures of epoll/net.rs register.
use complete_io.Base.{
  ℕ, ◌≡◌, refl, sym, ap, ◌∙◌, inl, inr, ◌⊎◌, true, false, ◌||◌, not, Option, some, List, [], ◌∷◌,
  ◌++◌, map, Perm, subst, ltb, occurrences-perm, select-true, select-false, IoError, Result, ok,
  arith,
}
use mathlib.Core.List.Perm
use complete_io.Epoll.Mask.{EventMask, read_only, write_only, hup_or_error, contains, intersects}
use complete_io.Epoll.Interests.{World, notified, wakes, handle_event}
use complete_io.Epoll.Interests.Loop.{elem, woken_by, kept_by}
use complete_io.Epoll.Interests.Wakeup.{Handled, rearmed, rearm_result, handle_event-Handled}
use complete_io.Epoll.Interests.Tracked.{ids, elem-occurrences}

-- Each interest is for reading or for writing, as in epoll/net.rs.
abbrev pub AreSimple : List (EventMask × ℕ) → Type 0
AreSimple [] = Unit
AreSimple (x ∷ xs) = ((x.0 ≡ read_only) ⊎ (x.0 ≡ write_only)) × AreSimple xs

abbrev pub read_write : EventMask
read_write = record read_only { write = true }

simple-waits : (m : EventMask) → (m ≡ read_only) ⊎ (m ≡ write_only) → wakes read_write m ≡ false
unfolding wakes contains intersects
simple-waits m (inl e) = rw e
simple-waits m (inr e) = rw e

none_woken : (xs : List (EventMask × ℕ)) → AreSimple xs → woken_by read_write xs ≡ []
none_woken [] s = refl
none_woken (x ∷ xs) s =
    select-false (λ y. wakes read_write y.0) x xs (simple-waits x.0 s.0) ∙ none_woken xs s.1

all_kept : (xs : List (EventMask × ℕ)) → AreSimple xs → kept_by read_write xs ≡ xs
all_kept [] s = refl
all_kept (x ∷ xs) s =
    select-true (λ y. not (wakes read_write y.0)) x xs (ap not (simple-waits x.0 s.0))
    ∙ ap (◌∷◌ x) (all_kept xs s.1)

hangup-wakes : (e m : EventMask) → intersects e hup_or_error ≡ true → wakes e m ≡ true
unfolding wakes
hangup-wakes e m h = ground arith

all_woken :
    (e : EventMask) (xs : List (EventMask × ℕ))
    → intersects e hup_or_error ≡ true
    → (woken_by e xs ≡ xs) × (kept_by e xs ≡ [])
all_woken e [] h = (refl, refl)
all_woken e (x ∷ xs) h = (
  select-true (λ y. wakes e y.0) x xs (hangup-wakes e x.0 h) ∙ ap (◌∷◌ x) (all_woken e xs h).0,
  select-false (λ y. not (wakes e y.0)) x xs (ap not (hangup-wakes e x.0 h)) ∙ (all_woken e xs h).1,
)

elem-perm : (i : ℕ) {xs ys : List ℕ} → Perm xs ys → elem i xs ≡ elem i ys
elem-perm i {xs} {ys} p =
    elem-occurrences i xs ∙ ap (ltb 0) (occurrences-perm i p) ∙ sym (elem-occurrences i ys)

module _ {kernel : ℕ → Option IoError} {w : World} {r : Result (Unit {0})} {w' : World} where
  Handled-simple :
      AreSimple w.interests
      → Handled kernel read_write w r w'
      → Perm w'.interests w.interests
        × ((i : ℕ) → w'.fired i ≡ w.fired i)
        × (w'.log ≡ rearmed kernel w'.interests w.log)
  Handled-simple s h = (
    subst (Perm w'.interests) (all_kept w.interests s) h.kept_perm,
    λ i. h.fired i ∙ ap (λ l. elem i l || w.fired i) nobody,
    h.log ∙ ap (λ l. rearmed kernel w'.interests (map notified l ++ w.log)) nobody,
  )
    where
      nobody : h.woken ≡ []
      nobody =
          Perm.eq-nil (subst (λ l. Perm h.woken (ids l)) (none_woken w.interests s) h.woken_perm)

  Handled-hangup :
      {events : EventMask}
      → intersects events hup_or_error ≡ true
      → Handled kernel events w r w'
      → (r ≡ ok tt)
        × (w'.interests ≡ [])
        × ((i : ℕ) → w'.fired i ≡ (elem i (ids w.interests) || w.fired i))
  Handled-hangup {events} e h = (
    h.result ∙ ap (λ l. rearm_result kernel l (map notified h.woken ++ w.log)) gone,
    gone,
    λ i. h.fired i ∙ ap (λ b. b || w.fired i) (elem-perm i everybody),
  )
    where
      gone : w'.interests ≡ []
      gone = Perm.eq-nil (subst (Perm w'.interests) (all_woken events w.interests e).1 h.kept_perm)

      everybody : Perm h.woken (ids w.interests)
      everybody = subst (λ l. Perm h.woken (ids l)) (all_woken events w.interests e).0 h.woken_perm

module _ (kernel : ℕ → Option IoError) where
  -- A socket that is readable and writable at once, while all that wait do so to read or to write:
  -- all of them keep waiting, whoever they are. No task is notified, no cell is flagged, and the
  -- kernel is asked for their events again.
  pub both_ready_wakes_none :
      (w : World)
      → AreSimple w.interests
      → (r : Result (Unit {0})) × (w' : World) × (handle_event kernel read_write w ≡ some (r, w'))
        × Perm w'.interests w.interests
        × ((i : ℕ) → w'.fired i ≡ w.fired i)
        × (w'.log ≡ rearmed kernel w'.interests w.log)
  both_ready_wakes_none w s =
      let (r, w', out, h) = handle_event-Handled kernel read_write w in
      let (kept, quiet, log) = Handled-simple s h in (r, w', out, kept, quiet, log)

  -- A hang-up or an error takes every interest out of the vector and flags its cell, and the call
  -- succeeds whatever the kernel does, since nothing is armed again.
  hangup_wakes_all :
      (events : EventMask) (w : World)
      → intersects events hup_or_error ≡ true
      → (w' : World) × (handle_event kernel events w ≡ some (ok tt, w'))
        × (w'.interests ≡ [])
        × ((i : ℕ) → w'.fired i ≡ (elem i (ids w.interests) || w.fired i))
  hangup_wakes_all events w e =
      let (r, w', out, h) = handle_event-Handled kernel events w in
      let (fine, gone, all) = Handled-hangup e h in
      (w', out ∙ ap (λ x. some (x, w')) fine, gone, all)
