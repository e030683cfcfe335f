-- ===== src/ThreadPool/Joint/Weights.antt =====
-- src/evloop/threadpool/mod.rs: how many handles of a task stand at places of a kind, and what a step
-- changes.
use complete_io.Base.{
  ℕ, subst, of_some, zero, suc, ◌+◌, ◌≡◌, refl, sym, ap, ◌∙◌, inl, inr, Bool, true, false,
  Bool-cases, some, List, [], ◌∷◌, ◌++◌, get_elem?, swap_remove, move_last-perm, total, total-perm,
  ◌==◌, arith,
}
use complete_io.ThreadPool.Task.{
  Task, Place, posted, pushing, queued, entered, looping, polling, polled, Answer, ready, not_ready,
  failed, Kind, global, local, notifies_from, advances, replace, wake, bump, notify, advance,
  advance_at, step,
}
use complete_io.ThreadPool.Task.Counts.{alive-some}
use complete_io.ThreadPool.Joint.{Polls}

abbrev pub is_posted : Place → ℕ
is_posted posted = 1
is_posted _ = 0

abbrev pub is_queued : Place → ℕ
is_queued queued = 1
is_queued _ = 0

-- In `do_poll`, or on its way to a queue.
abbrev pub is_elsewhere : Place → ℕ
is_elsewhere posted = 0
is_elsewhere queued = 0
is_elsewhere _ = 1

module _ (f : Place → ℕ) where
  total-snoc : (xs : List Place) (q : Place) → total f (xs ++ q ∷ []) ≡ total f xs + f q
  total-snoc [] q = omega arith
  total-snoc (x ∷ xs) q = omega (arith, total-snoc xs q)

  total-replace :
      (ps : List Place) (k : ℕ) (q r : Place)
      → get_elem? ps k ≡ some q
      → total f (replace k r ps) + f q ≡ total f ps + f r
  total-replace [] k q r e = cc
  total-replace (p ∷ ps) zero q r e = let same : p ≡ q = cc in rw same (omega arith)
  total-replace (p ∷ ps) (suc k) q r e = omega (arith, total-replace ps k q r e)

  total-swap_remove :
      (ps : List Place) (k : ℕ) (q : Place)
      → get_elem? ps k ≡ some q
      → total f (swap_remove ps k) + f q ≡ total f ps
  unfolding swap_remove
  total-swap_remove [] k q e = cc
  total-swap_remove (p ∷ ps) zero q e =
      let same : p ≡ q = cc in rw same (omega (arith, total-perm f (move_last-perm ps)))
  total-swap_remove (p ∷ ps) (suc k) q e = omega (arith, total-swap_remove ps k q e)

moved :
    (t v : Task) (k : ℕ) (a : Answer) (q : Place)
    → get_elem? t.places k ≡ some q
    → step (advances k a) t ≡ some v
    → advance k a q t ≡ v
unfolding step
moved t v k a q at e =
    let out = alive-some t.status _ e in cc (sym (ap (λ o. advance_at k a o t) at) ∙ out)

-- Handles that wait for the pool, and that do not.
pub record Shift (t v : Task) (d g d' g' : ℕ) : Type 0 where
  pub posted_shift : total is_posted v.places + d ≡ total is_posted t.places + d'
  pub queued_shift : total is_queued v.places + g ≡ total is_queued t.places + g'

weightless : (q : Place) → Polls q → (is_posted q ≡ 0) × (is_queued q ≡ 0)
weightless posted b = absurd b
weightless pushing b = absurd b
weightless queued b = absurd b
weightless entered b = (refl, refl)
weightless (looping init) b = (refl, refl)
weightless (polling init) b = (refl, refl)
weightless (polled init) b = (refl, refl)

wake-Shift : (kind : Kind) (worker : Bool) (t : Task) → Shift t (wake kind worker t) 0 0 0 0
wake-Shift global true t = record {
  posted_shift = omega (arith, total-snoc is_posted t.places pushing);
  queued_shift = omega (arith, total-snoc is_queued t.places pushing);
}
wake-Shift global false t = record { posted_shift = refl; queued_shift = refl }
wake-Shift local worker t = record { posted_shift = refl; queued_shift = refl }

notify-Shift : (worker : Bool) (t : Task) → Shift t (notify worker t) 0 0 0 0
unfolding notify
notify-Shift worker t = elim (Bool-cases (t.level == 0)) [
  | inl z ↦
      let w = wake-Shift t.kind worker (bump t) in
      rw z (record { posted_shift = w.posted_shift; queued_shift = w.queued_shift })
  | inr n ↦ rw n (record { posted_shift = refl; queued_shift = refl })
]

pub bumped-Shift :
    (worker : Bool) (t v : Task) → step (notifies_from worker) t ≡ some v → Shift t v 0 0 0 0
unfolding step
bumped-Shift worker t v e =
    of_some (λ u. Shift t u 0 0 0 0) _ v (alive-some t.status _ e) (notify-Shift worker t)

module _ (t v : Task) (k : ℕ) (a : Answer) where
  pub taken-Shift :
      get_elem? t.places k ≡ some posted → step (advances k a) t ≡ some v → Shift t v 1 0 0 1
  unfolding advance
  taken-Shift at e =
      subst (λ u. Shift t u 1 0 0 1) (moved t v k a posted at e)
        (record {
          posted_shift = total-replace is_posted t.places k posted queued at;
          queued_shift = total-replace is_queued t.places k posted queued at;
        })

  pub pushed-Shift :
      get_elem? t.places k ≡ some pushing → step (advances k a) t ≡ some v → Shift t v 0 0 0 1
  unfolding advance
  pushed-Shift at e =
      subst (λ u. Shift t u 0 0 0 1) (moved t v k a pushing at e)
        (record {
          posted_shift = total-replace is_posted t.places k pushing queued at;
          queued_shift = total-replace is_queued t.places k pushing queued at;
        })

  pub stolen-Shift :
      get_elem? t.places k ≡ some queued → step (advances k a) t ≡ some v → Shift t v 0 1 0 0
  unfolding advance
  stolen-Shift at e =
      subst (λ u. Shift t u 0 1 0 0) (moved t v k a queued at e)
        (record {
          posted_shift = total-replace is_posted t.places k queued entered at;
          queued_shift = total-replace is_queued t.places k queued entered at;
        })

  replaced :
      (q r : Place) (u : Task)
      → get_elem? t.places k ≡ some q
      → Polls q
      → Polls r
      → u.places ≡ replace k r t.places
      → Shift t u 0 0 0 0
  replaced q r u at b b' e =
      let (no_post, no_queue) = weightless q b in
      let (no_post', no_queue') = weightless r b' in
      record {
        posted_shift = omega (
          arith,
          ap (total is_posted) e,
          total-replace is_posted t.places k q r at,
          no_post,
          no_post',
        );
        queued_shift = omega (
          arith,
          ap (total is_queued) e,
          total-replace is_queued t.places k q r at,
          no_queue,
          no_queue',
        );
      }

  left :
      (q : Place) (u : Task)
      → get_elem? t.places k ≡ some q
      → Polls q
      → u.places ≡ swap_remove t.places k
      → Shift t u 0 0 0 0
  left q u at b e =
      let (no_post, no_queue) = weightless q b in
      record {
        posted_shift =
            omega
              (arith, ap (total is_posted) e, total-swap_remove is_posted t.places k q at, no_post);
        queued_shift =
            omega (
              arith,
              ap (total is_queued) e,
              total-swap_remove is_queued t.places k q at,
              no_queue,
            );
      }

  answer-Shift :
      (init : ℕ)
      → get_elem? t.places k ≡ some (polling init)
      → (b : Answer) → Shift t (advance k b (polling init) t) 0 0 0 0
  unfolding advance
  answer-Shift init at not_ready = replaced (polling init) (polled init) _ at tt tt refl
  answer-Shift init at ready = left (polling init) _ at tt refl
  answer-Shift init at failed = record { posted_shift = refl; queued_shift = refl }

  advance-Shift :
      (q : Place) → get_elem? t.places k ≡ some q → Polls q → Shift t (advance k a q t) 0 0 0 0
  unfolding advance
  advance-Shift posted at b = absurd b
  advance-Shift pushing at b = absurd b
  advance-Shift queued at b = absurd b
  advance-Shift entered at b = replaced entered (looping t.level) _ at tt tt refl
  advance-Shift (looping init) at b = replaced (looping init) (polling init) _ at tt tt refl
  advance-Shift (polling init) at b = answer-Shift init at a
  advance-Shift (polled init) at b = elim (Bool-cases (t.level == init)) [
    | inl same ↦ rw same (left (polled init) _ at tt refl)
    | inr other ↦ rw other (replaced (polled init) (looping t.level) _ at tt tt refl)
  ]

  pub Polls-Shift :
      (q : Place)
      → get_elem? t.places k ≡ some q
      → Polls q
      → step (advances k a) t ≡ some v
      → Shift t v 0 0 0 0
  Polls-Shift q at b e =
      subst (λ u. Shift t u 0 0 0 0) (moved t v k a q at e) (advance-Shift q at b)
