-- ===== src/ThreadPool/Workers/Positions.antt =====
-- Lists by position, for the vectors of the pool.
use complete_io.Base.{
  ℕ, zero, suc, ◌+◌, ◌≡◌, refl, sym, ap, ◌∙◌, subst, inl, inr, Bool, false, Option, none, some,
  Bool-cases, List, [], ◌∷◌, get_elem?, swap_remove, move_last-perm, occurrences, occurrences-perm,
  if◌then◌else◌, ◌==◌, ==_iff, arith,
}
use complete_io.ThreadPool.Workers.{one_more, position, set}

swap_remove-occurrences :
    (j x : ℕ) (xs : List ℕ) (k : ℕ)
    → get_elem? xs k ≡ some x
    → occurrences j xs ≡ (if x == j then 1 else 0) + occurrences j (swap_remove xs k)
unfolding swap_remove
swap_remove-occurrences j x [] k e = cc
swap_remove-occurrences j x (y ∷ xs) zero e =
    let same : y ≡ x = cc in rw same (omega (arith, occurrences-perm j (move_last-perm xs)))
swap_remove-occurrences j x (y ∷ xs) (suc k) e = omega (arith, swap_remove-occurrences j x xs k e)

one_more-some :
    (x y : ℕ) (xs : List ℕ) (o : Option ℕ) (k : ℕ)
    → ((m : ℕ) → o ≡ some m → get_elem? xs m ≡ some x)
    → one_more o ≡ some k
    → get_elem? (y ∷ xs) k ≡ some x
one_more-some x y xs none k f e = cc
one_more-some x y xs (some m) zero f e = cc
one_more-some x y xs (some m) (suc k) f e =
    let same : m ≡ k = cc in subst (λ l. get_elem? xs l ≡ some x) same (f m refl)

position-some : (x : ℕ) (xs : List ℕ) (k : ℕ) → position x xs ≡ some k → get_elem? xs k ≡ some x
position-some x [] k e = cc
position-some x (y ∷ xs) k e = elim (Bool-cases (y == x)) [
  | inl h ↦
      let zeroth : some 0 ≡ some k =
        sym (ap (λ b. if b then some 0 else one_more (position x xs)) h) ∙ e in
      let first : 0 ≡ k = cc in
      subst (λ l. get_elem? (y ∷ xs) l ≡ some x) first (ap some ((==_iff y x).0 h))
  | inr h ↦
      one_more-some x y xs (position x xs) k (λ m q. position-some x xs m q)
        (sym (ap (λ b. if b then some 0 else one_more (position x xs)) h) ∙ e)
]

one_more-none : (o : Option ℕ) → one_more o ≡ none → o ≡ none
one_more-none none e = refl
one_more-none (some k) e = cc

pub position-none : (x : ℕ) (xs : List ℕ) → position x xs ≡ none → occurrences x xs ≡ 0
position-none x [] e = refl
position-none x (y ∷ xs) e = elim (Bool-cases (y == x)) [
  | inl h ↦ cc (sym (ap (λ b. if b then some 0 else one_more (position x xs)) h) ∙ e)
  | inr h ↦
      let rest : one_more (position x xs) ≡ none =
        sym (ap (λ b. if b then some 0 else one_more (position x xs)) h) ∙ e in
      rw h (omega (arith, position-none x xs (one_more-none (position x xs) rest)))
]

pub position-occurrences :
    (j x : ℕ) (xs : List ℕ) (k : ℕ)
    → position x xs ≡ some k
    → occurrences j xs ≡ (if x == j then 1 else 0) + occurrences j (swap_remove xs k)
position-occurrences j x xs k e = swap_remove-occurrences j x xs k (position-some x xs k e)

pub position-occurrences_self :
    (i : ℕ) (xs : List ℕ) (k : ℕ)
    → position i xs ≡ some k
    → occurrences i xs ≡ suc (occurrences i (swap_remove xs k))
position-occurrences_self i xs k e = omega (
  arith,
  position-occurrences i i xs k e,
  ap (λ (b : Bool). let n : ℕ = if b then 1 else 0 in n) ((==_iff i i).1 refl),
)

module _ {A : Type 0} where
  pub get_elem?-set :
      (ws : List A) (i j : ℕ) (w w' : A)
      → get_elem? ws i ≡ some w
      → get_elem? (set ws i w') j ≡ (if i == j then some w' else get_elem? ws j)
  get_elem?-set [] i j w w' e = cc
  get_elem?-set (v ∷ ws) zero zero w w' e = refl
  get_elem?-set (v ∷ ws) zero (suc j) w w' e = ground arith
  get_elem?-set (v ∷ ws) (suc i) zero w w' e = ground arith
  get_elem?-set (v ∷ ws) (suc i) (suc j) w w' e = ground (arith, get_elem?-set ws i j w w' e)

  pub get_elem?-set_self :
      (ws : List A) (i : ℕ) (w w' : A)
      → get_elem? ws i ≡ some w
      → get_elem? (set ws i w') i ≡ some w'
  get_elem?-set_self ws i w w' e =
      get_elem?-set ws i i w w' e
      ∙ ap (λ b. if b then some w' else get_elem? ws i) ((==_iff i i).1 refl)

  pub get_elem?-set_other :
      (ws : List A) (i j : ℕ) (w w' : A)
      → get_elem? ws i ≡ some w
      → (i == j) ≡ false
      → get_elem? (set ws i w') j ≡ get_elem? ws j
  get_elem?-set_other ws i j w w' e n =
      get_elem?-set ws i j w w' e ∙ ap (λ b. if b then some w' else get_elem? ws j) n
