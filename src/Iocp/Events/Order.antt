-- ===== src/Iocp/Events/Order.antt =====
-- src/iocp/mod.rs: what was posted reaches the handlers, and completions the tasks, in order.
use complete_io.Base.{
  ℕ, zero, suc, Perm, of_some, ◌≡◌, refl, sym, subst, ap, ◌∙◌, inl, inr, false, Bool-cases, Option,
  none, some, List, [], ◌∷◌, ◌++◌, append_assoc, append-nil, if◌then◌else◌, ◌==◌, arith,
}
use mathlib.Core.List.{perm_append_comm}
use mathlib.Core.List.Perm
use complete_io.Iocp.{EventTag, Packet, Action, notify_task, callback, dispatch}
use complete_io.Iocp.Events.{Delivery, lookup, beside, pick}

module _ {A : Type 0} where
  -- All that the packets of the port give, in their order.
  abbrev pub gather : (Packet → List A) → List Packet → List A
  gather f [] = []
  gather f (q ∷ qs) = f q ++ gather f qs

  pub gather-snoc :
      (f : Packet → List A) (qs : List Packet) (q : Packet)
      → gather f (qs ++ q ∷ []) ≡ gather f qs ++ f q
  gather-snoc f [] q = append-nil (f q)
  gather-snoc f (r ∷ qs) q =
      ap (f r ++◌) (gather-snoc f qs q) ∙ sym (append_assoc (f r) (gather f qs) (f q))

  -- What a packet at the end gives is moved to the front.
  pub Perm-gather :
      (f : Packet → List A) (q r : Packet) (qs rest : List Packet)
      → Perm (gather f qs) (f q ++ gather f rest)
      → Perm (gather f (r ∷ qs)) (f q ++ gather f (r ∷ rest))
  Perm-gather f q r qs rest h = Perm.trans (Perm.append_left (f r) h) (
      subst (λ m. Perm m (f q ++ (f r ++ gather f rest))) (append_assoc (f r) (f q) (gather f rest))
        (subst (Perm ((f r ++ f q) ++ gather f rest)) (append_assoc (f q) (f r) (gather f rest))
          (Perm.append_right (gather f rest) (perm_append_comm (f r) (f q)))))

  gather-pick_beside :
      (f : Packet → List A) (o : Option (Packet × List Packet)) (r : Packet) (qs : List Packet)
      (q : Packet) (rest : List Packet)
      → ((g : Packet) (gs : List Packet)
          → o ≡ some (g, gs)
          → Perm (gather f qs) (f g ++ gather f gs))
      → beside r o ≡ some (q, rest)
      → Perm (gather f (r ∷ qs)) (f q ++ gather f rest)
  gather-pick_beside f none r qs q rest h e = cc
  gather-pick_beside f (some (g, gs)) r qs q rest h e =
      of_some (λ x. Perm (gather f (r ∷ qs)) (f x.0 ++ gather f x.1)) (g, r ∷ gs) (q, rest) e
        (Perm-gather f g r qs gs (h g gs refl))

  pub gather-pick :
      (f : Packet → List A) (k : ℕ) (qs : List Packet) (q : Packet) (rest : List Packet)
      → pick k qs ≡ some (q, rest)
      → Perm (gather f qs) (f q ++ gather f rest)
  gather-pick f k [] q rest e = cc
  gather-pick f zero (r ∷ qs) q rest e =
      of_some (λ x. Perm (gather f (r ∷ qs)) (f x.0 ++ gather f x.1)) (r, qs) (q, rest) e
        (Perm.refl (gather f (r ∷ qs)))
  gather-pick f (suc k) (r ∷ qs) q rest e =
      gather-pick_beside f (pick k qs) r qs q rest (λ g gs d. gather-pick f k qs g gs d) e

abbrev pub found : Option ℕ → EventTag → ℕ → List Delivery
found (some h) tag d = record { handler = h; tag = tag; data_word = d } ∷ []
found none tag d = []

abbrev pub delivers_to : List (ℕ × ℕ) → Action → List Delivery
delivers_to t (notify_task o) = []
delivers_to t (callback pointer tag d) = found (lookup pointer t) tag d

abbrev pub owes : Action → List ℕ
owes (notify_task o) = o ∷ []
owes (callback pointer tag d) = []

-- The handler of a packet is in the table.
abbrev pub Known : List (ℕ × ℕ) → Action → Type 0
Known t (notify_task o) = Unit {0}
Known t (callback pointer tag d) = (h : ℕ) × (lookup pointer t ≡ some h)

lookup-snoc :
    (t : List (ℕ × ℕ)) (x : ℕ × ℕ) (a h : ℕ) → lookup a t ≡ some h → lookup a (t ++ x ∷ []) ≡ some h
lookup-snoc [] x a h q = cc
lookup-snoc ((b, g) ∷ t) x a h q = elim (Bool-cases (b == a)) [
  | inl same ↦ cc
  | inr other ↦
      cc (lookup-snoc t x a h (sym (ap (λ c. if c then some g else lookup a t) other) ∙ q))
]

pub lookup-none :
    (t : List (ℕ × ℕ)) (a b h : ℕ)
    → lookup b t ≡ none
    → (a == b) ≡ false
    → lookup b (t ++ (a, h) ∷ []) ≡ none
lookup-none [] a b h q n = ground arith
lookup-none ((c, g) ∷ t) a b h q n = ground (arith, lookup-none t a b h)

Known-snoc :
    (t : List (ℕ × ℕ)) (x : ℕ × ℕ) (a : Action)
    → Known t a
    → Known (t ++ x ∷ []) a × (delivers_to (t ++ x ∷ []) a ≡ delivers_to t a)
Known-snoc t x (notify_task o) k = (tt, refl)
Known-snoc t x (callback pointer tag d) (h, q) =
    let q' = lookup-snoc t x pointer h q in ((h, q'), ap (λ o. found o tag d) (q' ∙ sym q))

module _ (id : ℕ) where
  abbrev pub pending : List (ℕ × ℕ) → List Packet → List Delivery
  pending t = gather (λ q. delivers_to t (dispatch id q))

  abbrev pub operations : List Packet → List ℕ
  operations = gather (λ q. owes (dispatch id q))

  abbrev pub AllKnown : List (ℕ × ℕ) → List Packet → Type 0
  AllKnown t [] = Unit {0}
  AllKnown t (q ∷ qs) = Known t (dispatch id q) × AllKnown t qs

  pub AllKnown-append :
      (t : List (ℕ × ℕ)) (qs : List Packet) (q : Packet)
      → AllKnown t qs
      → Known t (dispatch id q)
      → AllKnown t (qs ++ q ∷ [])
  AllKnown-append t [] q all k = (k, tt)
  AllKnown-append t (r ∷ qs) q all k = (all.0, AllKnown-append t qs q all.1 k)

  pub AllKnown-front :
      (t : List (ℕ × ℕ)) (qs rs : List Packet) → AllKnown t (qs ++ rs) → AllKnown t qs
  AllKnown-front t [] rs all = tt
  AllKnown-front t (q ∷ qs) rs all = (all.0, AllKnown-front t qs rs all.1)

  pub AllKnown-middle :
      (t : List (ℕ × ℕ)) (qs : List Packet) (q : Packet) (rs : List Packet)
      → AllKnown t (qs ++ q ∷ rs)
      → Known t (dispatch id q)
  AllKnown-middle t [] q rs all = all.0
  AllKnown-middle t (r ∷ qs) q rs all = AllKnown-middle t qs q rs all.1

  AllKnown-pick_beside :
      (t : List (ℕ × ℕ)) (o : Option (Packet × List Packet)) (r q : Packet) (rest : List Packet)
      → Known t (dispatch id r)
      → ((g : Packet) (gs : List Packet)
          → o ≡ some (g, gs)
          → Known t (dispatch id g) × AllKnown t gs)
      → beside r o ≡ some (q, rest)
      → Known t (dispatch id q) × AllKnown t rest
  AllKnown-pick_beside t none r q rest k h e = cc
  AllKnown-pick_beside t (some (g, gs)) r q rest k h e =
      let (kg, ks) = h g gs refl in
      of_some (λ x. Known t (dispatch id x.0) × AllKnown t x.1) (g, r ∷ gs) (q, rest) e
        (kg, (k, ks))

  pub AllKnown-pick :
      (t : List (ℕ × ℕ)) (k : ℕ) (qs : List Packet) (q : Packet) (rest : List Packet)
      → AllKnown t qs
      → pick k qs ≡ some (q, rest)
      → Known t (dispatch id q) × AllKnown t rest
  AllKnown-pick t k [] q rest all e = cc
  AllKnown-pick t zero (r ∷ qs) q rest all e =
      of_some (λ x. Known t (dispatch id x.0) × AllKnown t x.1) (r, qs) (q, rest) e all
  AllKnown-pick t (suc k) (r ∷ qs) q rest all e =
      AllKnown-pick_beside t (pick k qs) r q rest all.0
        (λ g gs d. AllKnown-pick t k qs g gs all.1 d) e

  pub AllKnown-grown :
      (t : List (ℕ × ℕ)) (x : ℕ × ℕ) (qs : List Packet)
      → AllKnown t qs
      → AllKnown (t ++ x ∷ []) qs × (pending (t ++ x ∷ []) qs ≡ pending t qs)
  AllKnown-grown t x [] all = (tt, refl)
  AllKnown-grown t x (q ∷ qs) all =
      let (k, same) = Known-snoc t x (dispatch id q) all.0 in
      let (ks, rest) = AllKnown-grown t x qs all.1 in
      (
        (k, ks),
        ap (◌++ pending (t ++ x ∷ []) qs) same ∙ ap (delivers_to t (dispatch id q) ++◌) rest,
      )
