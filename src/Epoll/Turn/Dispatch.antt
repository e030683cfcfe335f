-- ===== src/Epoll/Turn/Dispatch.antt =====
-- src/epoll/mod.rs: what a turn comes to, and which handlers it calls.
use complete_io.Base.{
  ℕ, ◌≡◌, refl, ap, sym, ◌∙◌, inl, inr, Bool, true, false, Bool-cases, some, List, [], ◌∷◌, ◌++◌,
  length, select, select-true, select-false, if◌then◌else◌, interrupted, ok,
}
use complete_io.Epoll.Mask.{EventMask, from_bits_truncate}
use complete_io.Epoll.Turn.{
  EpollEvent, Waited, filled, failed, deliver_one, deliver_all, turned, poll_interruptible, poll,
}

-- The wait was ended by a signal.
abbrev pub was_interrupted : Waited → Bool
was_interrupted (filled es) = false
was_interrupted (failed e) = interrupted e

-- Every wait of a list was.
abbrev pub AllInterrupted : List Waited → Type 0
AllInterrupted [] = Unit {0}
AllInterrupted (w ∷ ws) = (was_interrupted w ≡ true) × AllInterrupted ws

module _ {S : Type 0} (alive : ℕ → S → Bool) (handle : ℕ → EventMask → S → S) where
  first_answer :
      (w : Waited) (rest : List Waited) (s : S)
      → was_interrupted w ≡ false
      → poll alive handle (w ∷ rest) s ≡ some (poll_interruptible alive handle w s)
  unfolding poll poll_interruptible
  first_answer (filled es) rest s q = refl
  first_answer (failed e) rest s q = rw q refl

  -- A turn without an interrupt waits again after each signal, and on the first wait that ends in
  -- another way it comes back as a turn with an interrupt does.
  pub turn_retries :
      (signals : List Waited) (w : Waited) (rest : List Waited) (s : S)
      → AllInterrupted signals
      → was_interrupted w ≡ false
      → poll alive handle (signals ++ w ∷ rest) s ≡ some (poll_interruptible alive handle w s)
  unfolding poll
  turn_retries [] w rest s i q = first_answer w rest s q
  turn_retries (filled es ∷ signals) w rest s i q = cc
  turn_retries (failed e ∷ signals) w rest s i q = rw i.0 (turn_retries signals w rest s i.1 q)

  -- The handlers of a batch, one after the other.
  abbrev pub handle_each : List EpollEvent → S → S
  handle_each [] s = s
  handle_each (e ∷ es) s = handle_each es (handle e.pointer (from_bits_truncate e.events) s)

  abbrev pub is_alive : S → EpollEvent → Bool
  is_alive s e = alive e.pointer s

  kept_alive :
      (s t : S)
      → ((p : ℕ) → alive p t ≡ alive p s)
      → (es : List EpollEvent) → select (is_alive t) es ≡ select (is_alive s) es
  kept_alive s t k [] = refl
  kept_alive s t k (e ∷ es) = elim (Bool-cases (alive e.pointer s)) [
    | inl h ↦
        select-true (is_alive t) e es (k e.pointer ∙ h)
        ∙ ap (e ∷◌) (kept_alive s t k es)
        ∙ sym (select-true (is_alive s) e es h)
    | inr h ↦
        select-false (is_alive t) e es (k e.pointer ∙ h)
        ∙ kept_alive s t k es
        ∙ sym (select-false (is_alive s) e es h)
  ]

  deliver_all-handle_each :
      ((p q : ℕ) (m : EventMask) (s : S) → alive p (handle q m s) ≡ alive p s)
      → (es : List EpollEvent) (s : S)
      → deliver_all alive handle es s ≡ handle_each (select (is_alive s) es) s
  unfolding deliver_all deliver_one
  deliver_all-handle_each k [] s = refl
  deliver_all-handle_each k (e ∷ es) s = elim (Bool-cases (alive e.pointer s)) [
    | inl h ↦
        let t = handle e.pointer (from_bits_truncate e.events) s in
        let whole : handle_each (select (is_alive s) (e ∷ es)) s
            ≡ handle_each (select (is_alive s) es) t =
          ap (λ l. handle_each l s) (select-true (is_alive s) e es h) in
        let rest : deliver_all alive handle es t ≡ handle_each (select (is_alive s) es) t =
          deliver_all-handle_each k es t
          ∙ ap (λ l. handle_each l t) (kept_alive s t (λ p. k p e.pointer _ s) es) in
        ap (λ b. deliver_all alive handle es (if b then t else s)) h ∙ rest ∙ sym whole
    | inr h ↦
        ap
          (λ b.
            deliver_all alive handle es
              (if b then handle e.pointer (from_bits_truncate e.events) s else s))
          h
        ∙ deliver_all-handle_each k es s
        ∙ ap (λ l. handle_each l s) (sym (select-false (is_alive s) e es h))
  ]

  -- If no handler makes or drops a registration, a turn returns the number of the events, and has called
  -- the handlers of those whose registration exists, in the order of the events, each with its mask.
  pub turn_delivers :
      ((p q : ℕ) (m : EventMask) (s : S) → alive p (handle q m s) ≡ alive p s)
      → (es : List EpollEvent) (s : S)
      → poll_interruptible alive handle (filled es) s
        ≡ (ok (length es), handle_each (select (is_alive s) es) s)
  unfolding poll_interruptible turned
  turn_delivers k [] s = refl
  turn_delivers k (e ∷ es) s =
      ap (λ t. (ok (length (e ∷ es)), t)) (deliver_all-handle_each k (e ∷ es) s)
