-- ===== src/Base/Lists.antt =====
-- Lists measured and indexed by native numbers, filters by a Boolean test, and `Vec::swap_remove`.
use Prim.Native.Nat.{ℕ, zero, suc, ◌+◌}
use mathlib.Core.Path.{◌≡◌, refl, ap}
use mathlib.Core.Bool.{Bool, true, false}
use mathlib.Core.List.{List, [], ◌∷◌, ◌++◌, Perm, filter, perm_middle, append-nil}
use mathlib.Core.List.Perm
use mathlib.Core.Option.{Option, none, some}
use mathlib.Core.List.Permᴰ.{Permᴰ, nil, cons, swap, trans}
use mathlib.Core.Path.{ap₂, ◌∙◌}
use mathlib.Core.Logic.{∥∥₁_elim}
use native.Mathlib.Nat.{ℕ_set}
use native.Mathlib.Omega.{arith}
use complete_io.Base.Tests.{if◌then◌else◌, ◌==◌}

unfoldable pub is_true? : (b : Bool) → Dec (b ≡ true)
is_true? true = yes refl
is_true? false = no (λ e. cc)

module _ {ℓ} {A : Type ℓ} where
  abbrev pub length : List A → ℕ
  length [] = 0
  length (x ∷ xs) = suc (length xs)

  abbrev pub get_elem? : List A → ℕ → Option A
  get_elem? [] i = none
  get_elem? (x ∷ xs) zero = some x
  get_elem? (x ∷ xs) (suc i) = get_elem? xs i

  -- The elements that pass a Boolean test.
  abbrev pub select : (A → Bool) → List A → List A
  select p = filter (λ x. is_true? (p x))

  abbrev pub second : A → List A → List A
  second x [] = x ∷ []
  second x (y ∷ ys) = y ∷ x ∷ ys

  -- The last element comes to the front.
  unfoldable pub move_last : List A → List A
  move_last [] = []
  move_last (x ∷ xs) = second x (move_last xs)

  -- `Vec::swap_remove`: the last element takes the place of the one that goes. (Out of range it
  -- panics; here nothing changes.)
  unfoldable pub swap_remove : List A → ℕ → List A
  unfolding move_last
  swap_remove [] i = []
  swap_remove (x ∷ xs) zero = move_last xs
  swap_remove (x ∷ xs) (suc i) = x ∷ swap_remove xs i

  pub length-append : (xs ys : List A) → length (xs ++ ys) ≡ length xs + length ys
  length-append [] ys = omega arith
  length-append (x ∷ xs) ys = omega (arith, length-append xs ys)

  second-perm : (x : A) (xs : List A) → Perm (second x xs) (x ∷ xs)
  second-perm x [] = Perm.rfl
  second-perm x (y ∷ ys) = Perm.swap x y ys

  pub move_last-perm : (xs : List A) → Perm (move_last xs) xs
  unfolding move_last
  move_last-perm [] = Perm.rfl
  move_last-perm (x ∷ xs) =
      Perm.trans (second-perm x (move_last xs)) (Perm.cons x (move_last-perm xs))

  length-second : (x : A) (xs : List A) → length (second x xs) ≡ suc (length xs)
  length-second x [] = refl
  length-second x (y ∷ ys) = refl

  pub length-move_last : (xs : List A) → length (move_last xs) ≡ length xs
  unfolding move_last
  length-move_last [] = refl
  length-move_last (x ∷ xs) = omega (arith, length-second x (move_last xs), length-move_last xs)

  -- The element behind a prefix, and its removal.
  pub get_elem?-middle :
      (xs : List A) (y : A) (ys : List A) → get_elem? (xs ++ y ∷ ys) (length xs) ≡ some y
  get_elem?-middle [] y ys = refl
  get_elem?-middle (x ∷ xs) y ys = get_elem?-middle xs y ys

  pub get_elem?-length : (xs : List A) → get_elem? xs (length xs) ≡ none
  get_elem?-length [] = refl
  get_elem?-length (x ∷ xs) = get_elem?-length xs

  pub swap_remove-middle :
      (xs : List A) (y : A) (ys : List A)
      → swap_remove (xs ++ y ∷ ys) (length xs) ≡ xs ++ move_last ys
  unfolding swap_remove
  swap_remove-middle [] y ys = refl
  swap_remove-middle (x ∷ xs) y ys = ap (x ∷◌) (swap_remove-middle xs y ys)

  module _ (p : A → Bool) where
    pub select-true : (x : A) (xs : List A) → p x ≡ true → select p (x ∷ xs) ≡ x ∷ select p xs
    unfolding is_true?
    select-true x xs e = ground arith

    pub select-false : (x : A) (xs : List A) → p x ≡ false → select p (x ∷ xs) ≡ select p xs
    unfolding is_true?
    select-false x xs e = ground arith

    pub select-move_last : (xs : List A) → Perm (select p (move_last xs)) (select p xs)
    select-move_last xs = Perm.filter _ (move_last-perm xs)

  pub swap_remove_only : (x : A) → swap_remove (x ∷ []) 0 ≡ []
  unfolding swap_remove
  swap_remove_only x = refl

  -- An element at the end instead of at the front.
  pub snoc-perm : (xs : List A) (x : A) {ys : List A} → Perm xs ys → Perm (xs ++ x ∷ []) (x ∷ ys)
  snoc-perm xs x h = Perm.trans (perm_middle xs []) (Perm.cons x (rw append-nil h))

-- How often a number occurs.
abbrev pub occurrences : ℕ → List ℕ → ℕ
occurrences i [] = 0
occurrences i (j ∷ js) = (if j == i then 1 else 0) + occurrences i js

occurrences-permᴰ : (i : ℕ) {xs ys : List ℕ} → Permᴰ xs ys → occurrences i xs ≡ occurrences i ys
occurrences-permᴰ i nil = refl
occurrences-permᴰ i (cons e p) =
    ap₂ (λ j n. (if j == i then 1 else 0) + n) e (occurrences-permᴰ i p)
occurrences-permᴰ i (swap {a} {b} {a'} {b'} {l} e f) = rw (e, f) (omega arith)
occurrences-permᴰ i (trans p q) = occurrences-permᴰ i p ∙ occurrences-permᴰ i q

pub occurrences-perm : (i : ℕ) {xs ys : List ℕ} → Perm xs ys → occurrences i xs ≡ occurrences i ys
occurrences-perm i p = ∥∥₁_elim p (ℕ_set _ _) (occurrences-permᴰ i)

swap_remove_test : swap_remove {A = ℕ} (1 ∷ 2 ∷ 3 ∷ 4 ∷ []) 1 ≡ 1 ∷ 4 ∷ 3 ∷ []
unfolding swap_remove
swap_remove_test = refl

pub occurrences-append :
    (i : ℕ) (xs ys : List ℕ) → occurrences i (xs ++ ys) ≡ occurrences i xs + occurrences i ys
occurrences-append i [] ys = omega arith
occurrences-append i (x ∷ xs) ys = omega (arith, occurrences-append i xs ys)

module _ {A : Type 0} where
  length-permᴰ : {xs ys : List A} → Permᴰ xs ys → length xs ≡ length ys
  length-permᴰ nil = refl
  length-permᴰ (cons e p) = ap suc (length-permᴰ p)
  length-permᴰ (swap {a} {b} {a'} {b'} {l} e f) = refl
  length-permᴰ (trans p q) = length-permᴰ p ∙ length-permᴰ q

  pub length-perm : {xs ys : List A} → Perm xs ys → length xs ≡ length ys
  length-perm p = ∥∥₁_elim p (ℕ_set _ _) length-permᴰ

module _ {A : Type 0} (f : A → ℕ) where
  -- The sum over a list.
  abbrev pub total : List A → ℕ
  total [] = 0
  total (x ∷ xs) = f x + total xs

  total-permᴰ : {xs ys : List A} → Permᴰ xs ys → total xs ≡ total ys
  total-permᴰ nil = refl
  total-permᴰ (cons e p) = ap₂ (λ a n. f a + n) e (total-permᴰ p)
  total-permᴰ (swap {a} {b} {a'} {b'} {l} e g) = rw (e, g) (omega arith)
  total-permᴰ (trans p q) = total-permᴰ p ∙ total-permᴰ q

  pub total-perm : {xs ys : List A} → Perm xs ys → total xs ≡ total ys
  total-perm p = ∥∥₁_elim p (ℕ_set _ _) total-permᴰ
