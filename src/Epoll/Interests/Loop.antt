-- ===== src/Epoll/Interests/Loop.antt =====
-- The loop of `handle_event` against a description by filters: which interests go, which stay,
-- what is written to their cells, and the mask that is left.
use mathlib.Core.List.Perm
use complete_io.Base.{
  ℕ, zero, suc, ◌<◌, ◌≡◌, refl, sym, ap, ◌∙◌, inl, inr, Bool, true, false, ◌||◌, not, Option, none,
  some, List, [], ◌∷◌, ◌++◌, map, Perm, append_assoc, append-nil, length, get_elem?, move_last,
  select, select-true, select-false, select-move_last, snoc-perm, length-move_last, length-append,
  get_elem?-middle, get_elem?-length, swap_remove-middle, ◌==◌, Bool-cases, arith,
}
use complete_io.Epoll.Mask.{EventMask, union}
use complete_io.Epoll.Interests.{World, Call, notified, update, wakes, fire, loop, get_or_insert}

abbrev pub elem : ℕ → List ℕ → Bool
elem i [] = false
elem i (j ∷ js) = j == i || elem i js

abbrev pub woken_by : EventMask → List (EventMask × ℕ) → List (EventMask × ℕ)
woken_by events = select (λ x. wakes events x.0)

abbrev pub kept_by : EventMask → List (EventMask × ℕ) → List (EventMask × ℕ)
kept_by events = select (λ x. not (wakes events x.0))

-- `remaining_interest_mask` after the interests `xs` have been kept.
abbrev pub remaining_after : Option EventMask → List (EventMask × ℕ) → Option EventMask
remaining_after r [] = r
remaining_after r ((m, _) ∷ xs) = remaining_after (some (union (get_or_insert r) m)) xs

-- The loop over `rest` in the world `w`, where the interests before the index are `done`.
pub record Swept (events : EventMask) (done rest : List (EventMask × ℕ)) (r : Option EventMask)
    (w : World) (r' : Option EventMask) (w' : World) : Type 0 where
  pub kept : List (EventMask × ℕ)
  pub woken : List ℕ
  pub interests : w'.interests ≡ done ++ kept
  pub kept_perm : Perm kept (kept_by events rest)
  pub woken_perm : Perm woken (map (λ x. x.1) (woken_by events rest))
  pub log : w'.log ≡ map notified woken ++ w.log
  pub fired : (i : ℕ) → w'.fired i ≡ (elem i woken || w.fired i)
  pub next : w'.next ≡ w.next
  pub remaining : r' ≡ remaining_after r kept

abbrev Sweep :
    EventMask
    → List (EventMask × ℕ)
    → List (EventMask × ℕ)
    → Option EventMask
    → World
    → Option (Option EventMask × World)
    → Type 0
Sweep events done rest r w out =
    (r' : Option EventMask) × (w' : World) × (out ≡ some (r', w'))
    × Swept events done rest r w r' w'

module _ (n i : ℕ) (r : Option EventMask) (events : EventMask) (w : World) where
  loop_end : get_elem? w.interests i ≡ none → loop (suc n) i r events w ≡ some (r, w)
  unfolding loop
  loop_end e = ground arith

  loop-fire :
      (m : EventMask) (id : ℕ)
      → get_elem? w.interests i ≡ some (m, id)
      → wakes events m ≡ true
      → loop (suc n) i r events w ≡ loop n i r events (fire i id w)
  unfolding loop
  loop-fire m id e t = ground arith

  loop_keep :
      (m : EventMask) (id : ℕ)
      → get_elem? w.interests i ≡ some (m, id)
      → wakes events m ≡ false
      → loop (suc n) i r events w ≡ loop n (suc i) (some (union (get_or_insert r) m)) events w
  unfolding loop
  loop_keep m id e t = ground arith

elem-snoc :
    (js : List ℕ) (id i : ℕ) (f : ℕ → Bool)
    → (elem i js || update f id true i) ≡ (elem i (js ++ id ∷ []) || f i)
elem-snoc [] id i f = ground arith
elem-snoc (j ∷ js) id i f = ground (arith, elem-snoc js id i f)

map-snoc :
    (js : List ℕ) (id : ℕ) (cs : List Call)
    → map notified (js ++ id ∷ []) ++ cs ≡ map notified js ++ notified id ∷ cs
map-snoc [] id cs = refl
map-snoc (j ∷ js) id cs = ap (◌∷◌ (notified j)) (map-snoc js id cs)

module _ {events : EventMask} {done rest : List (EventMask × ℕ)} {r r' : Option EventMask}
    {w w' : World} {m : EventMask} {id : ℕ} where
  Swept-fire :
      wakes events m ≡ true
      → Swept events done (move_last rest) r (fire (length done) id w) r' w'
      → Swept events done ((m, id) ∷ rest) r w r' w'
  unfolding fire
  Swept-fire t s = record {
    kept = s.kept;
    woken = s.woken ++ id ∷ [];
    interests = s.interests;
    kept_perm =
        rw (select-false (λ x. not (wakes events x.0)) (m, id) rest (ap not t))
          (Perm.trans s.kept_perm (select-move_last _ rest));
    woken_perm = rw (select-true (λ x. wakes events x.0) (m, id) rest t) (
        snoc-perm s.woken id
          (Perm.trans s.woken_perm (Perm.map (λ x. x.1) (select-move_last _ rest))));
    log = s.log ∙ sym (map-snoc s.woken id w.log);
    fired = λ i. s.fired i ∙ elem-snoc s.woken id i w.fired;
    next = s.next;
    remaining = s.remaining;
  }

  Swept-keep :
      wakes events m ≡ false
      → Swept events (done ++ (m, id) ∷ []) rest (some (union (get_or_insert r) m)) w r' w'
      → Swept events done ((m, id) ∷ rest) r w r' w'
  Swept-keep t s = record {
    kept = (m, id) ∷ s.kept;
    woken = s.woken;
    interests = s.interests ∙ append_assoc done ((m, id) ∷ []) s.kept;
    kept_perm =
        rw (select-true (λ x. not (wakes events x.0)) (m, id) rest (ap not t))
          (Perm.cons (m, id) s.kept_perm);
    woken_perm = rw (select-false (λ x. wakes events x.0) (m, id) rest t) s.woken_perm;
    log = s.log;
    fired = s.fired;
    next = s.next;
    remaining = s.remaining;
  }

interests-fire :
    (done : List (EventMask × ℕ)) (x : EventMask × ℕ) (rest : List (EventMask × ℕ)) (w : World)
    (id : ℕ)
    → w.interests ≡ done ++ x ∷ rest
    → (fire (length done) id w).interests ≡ done ++ move_last rest
unfolding fire
interests-fire done x rest w id e = rw e (swap_remove-middle done x rest)

at_end :
    (n : ℕ) (events : EventMask) (w : World) (done : List (EventMask × ℕ)) (x : EventMask × ℕ)
    (r : Option EventMask)
    → loop n (suc (length done)) r events w ≡ loop n (length (done ++ x ∷ [])) r events w
at_end n events w done x r =
    ap (λ k. loop n k r events w) (omega (arith, length-append done (x ∷ [])))

-- With more fuel than there are interests left, the loop ends, and has swept them.
pub loop-Sweep :
    (n : ℕ) (done rest : List (EventMask × ℕ)) (r : Option EventMask) (events : EventMask)
    (w : World)
    → length rest < n
    → w.interests ≡ done ++ rest
    → Sweep events done rest r w (loop n (length done) r events w)
loop-Sweep zero done rest r events w h e = absurd (omega arith)
loop-Sweep (suc n) done [] r events w h e = (
  r,
  w,
  loop_end n (length done) r events w (rw (e, append-nil) (get_elem?-length done)),
  record {
    kept = [];
    woken = [];
    interests = e;
    kept_perm = Perm.rfl;
    woken_perm = Perm.rfl;
    log = refl;
    fired = λ i. refl;
    next = refl;
    remaining = refl;
  },
)
loop-Sweep (suc n) done ((m, id) ∷ rest) r events w h e = elim (Bool-cases (wakes events m)) [
  | inl t ↦
      let (r', w', out, s) =
        loop-Sweep n done (move_last rest) r events (fire (length done) id w)
          (omega (arith, length-move_last rest)) (interests-fire done (m, id) rest w id e) in
      (
        r',
        w',
        loop-fire n (length done) r events w m id (rw e (get_elem?-middle done _ rest)) t ∙ out,
        Swept-fire t s,
      )
  | inr f ↦
      let (r', w', out, s) =
        loop-Sweep n (done ++ (m, id) ∷ []) rest (some (union (get_or_insert r) m)) events w
          (omega arith) (e ∙ sym (append_assoc done ((m, id) ∷ []) rest)) in
      (
        r',
        w',
        loop_keep n (length done) r events w m id (rw e (get_elem?-middle done _ rest)) f
            ∙ at_end n events w done (m, id) _
            ∙ out,
        Swept-keep f s,
      )
]
