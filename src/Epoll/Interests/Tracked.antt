-- ===== src/Epoll/Interests/Tracked.antt =====
-- Cells and interests: an interest that waits is in the vector once, one that was woken is flagged.
-- With the armed mask this is the invariant of a registration.
use complete_io.Base.{
  ℕ, ◌+◌, ◌<◌, ◌≡◌, refl, ap, inl, inr, Bool, not, Option, List, [], ◌∷◌, ◌++◌, map, occurrences,
  occurrences-perm, select-true, select-false, IoError, Result, ready, not_ready, Bool-cases,
  if◌then◌else◌, ltb, ◌==◌, arith,
}
use mathlib.Core.List.Perm
use complete_io.Epoll.Mask.{EventMask}
use complete_io.Epoll.Interests.{World, wakes, add_interest, push, interest_poll}
use complete_io.Epoll.Interests.Loop.{elem, woken_by, kept_by}
use complete_io.Epoll.Interests.Wakeup.{Handled}

abbrev pub ids : List (EventMask × ℕ) → List ℕ
ids = map (λ x. x.1)

abbrev pub flag : Bool → ℕ
flag b = if b then 1 else 0

-- Each interest that was made is waiting, once, or has fired.
abbrev pub IsTracked : World → Type 0
IsTracked w = (i : ℕ) → occurrences i (ids w.interests) + flag (w.fired i) ≡ flag (ltb i w.next)

pub elem-occurrences : (i : ℕ) (js : List ℕ) → elem i js ≡ ltb 0 (occurrences i js)
elem-occurrences i [] = refl
elem-occurrences i (j ∷ js) = ground (arith, elem-occurrences i js)

occurrences-snoc :
    (i : ℕ) (xs : List (EventMask × ℕ)) (x : EventMask × ℕ)
    → occurrences i (ids (xs ++ x ∷ [])) ≡ occurrences i (ids xs) + flag (x.1 == i)
occurrences-snoc i [] x = ground arith
occurrences-snoc i (y ∷ xs) x = omega (arith, occurrences-snoc i xs x)

-- An event splits the interests.
occurrences-split :
    (i : ℕ) (e : EventMask) (xs : List (EventMask × ℕ))
    → occurrences i (ids (kept_by e xs)) + occurrences i (ids (woken_by e xs))
      ≡ occurrences i (ids xs)
occurrences-split i e [] = refl
occurrences-split i e (x ∷ xs) = elim (Bool-cases (wakes e x.0)) [
  | inl t ↦
      rw
        (
          select-true (λ y. wakes e y.0) x xs t,
          select-false (λ y. not (wakes e y.0)) x xs (ap not t),
        )
        (omega (arith, occurrences-split i e xs))
  | inr f ↦
      rw
        (
          select-false (λ y. wakes e y.0) x xs f,
          select-true (λ y. not (wakes e y.0)) x xs (ap not f),
        )
        (omega (arith, occurrences-split i e xs))
]

pub push-IsTracked :
    (me : ℕ) (events : EventMask) (w : World) → IsTracked w → IsTracked (push me events w)
push-IsTracked me events w t i =
    ground (arith, t i, occurrences-snoc i w.interests (events, w.next))

-- Whatever the kernel answers, `add_interest` leaves what `push` leaves, but for the log.
record SameCells (w v : World) : Type 0 where
  interests : w.interests ≡ v.interests
  fired : w.fired ≡ v.fired
  next : w.next ≡ v.next

add_interest-SameCells :
    (kernel : ℕ → Option IoError) (me : ℕ) (events : EventMask) (w : World)
    → SameCells (add_interest kernel me events w).1 (push me events w)
unfolding add_interest
add_interest-SameCells kernel me events w = ground arith

pub add_interest-IsTracked :
    (kernel : ℕ → Option IoError) (me : ℕ) (events : EventMask) (w : World)
    → IsTracked w
    → IsTracked (add_interest kernel me events w).1
add_interest-IsTracked kernel me events w t i =
    let s = add_interest-SameCells kernel me events w in
    rw (s.interests, s.fired, s.next) (push-IsTracked me events w t i)

-- No interest is woken that was not waiting.
pub woken-occurrences :
    {kernel : ℕ → Option IoError} {events : EventMask} {w w' : World} {r : Result (Unit {0})}
    (h : Handled kernel events w r w') (i : ℕ)
    → occurrences i (ids w'.interests) + occurrences i h.woken ≡ occurrences i (ids w.interests)
woken-occurrences {events = events} {w = w} h i = omega (
  arith,
  occurrences-perm i (Perm.map (λ (x : EventMask × ℕ). x.1) h.kept_perm),
  occurrences-perm i h.woken_perm,
  occurrences-split i events w.interests,
)

pub Handled-IsTracked :
    {kernel : ℕ → Option IoError} {events : EventMask} {w w' : World} {r : Result (Unit {0})}
    → Handled kernel events w r w'
    → IsTracked w
    → IsTracked w'
Handled-IsTracked h t i =
    rw (h.fired i, h.next, elem-occurrences i h.woken) (ground (arith, t i, woken-occurrences h i))

-- A future that polls its interest is told to wait exactly as long as the interest is in the vector.
interest_poll-IsTracked :
    (me id : ℕ) (w : World)
    → IsTracked w
    → id < w.next
    → (interest_poll me id w).0 ≡ (if elem id (ids w.interests) then not_ready else ready tt)
unfolding interest_poll
interest_poll-IsTracked me id w t h = ground (arith, t id, elem-occurrences id (ids w.interests))
