-- ===== src/ThreadPool/Workers/WorkQueue.antt =====
-- The work queue of a worker, `coco::deque`, which this repository does not implement: what is pushed
-- is stolen once, and `steal_weak` is inconsistent only when other threads interfere (`busy`).
use complete_io.Base.{
  ℕ, Bool, true, false, ◌≡◌, ◌≢◌, refl, List, [], ◌∷◌, ◌++◌, Perm, if◌then◌else◌, snoc-perm,
}
use mathlib.Core.List.Perm

-- `coco::deque::Steal`
pub data Steal (Q : Type 0) : Type 0 where
  stolen : (task : ℕ) → Q → Steal Q  -- `Data`
  empty : Steal Q
  inconsistent : Steal Q

pub record Deque : Type 1 where
  pub Queue : Type 0
  pub contents : Queue → List ℕ
  pub new : Queue
  pub push : ℕ → Queue → Queue
  pub steal_weak : (busy : Bool) → Queue → Steal Queue
  pub contents-new : contents new ≡ []
  pub contents-push : (x : ℕ) (q : Queue) → Perm (contents (push x q)) (x ∷ contents q)
  pub steal_weak_stolen :
      (b : Bool) (q r : Queue) (x : ℕ)
      → steal_weak b q ≡ stolen x r
      → Perm (contents q) (x ∷ contents r)
  pub steal_weak_empty : (b : Bool) (q : Queue) → steal_weak b q ≡ empty → contents q ≡ []
  pub steal_weak_calm : (q : Queue) → steal_weak false q ≢ inconsistent

-- A list meets these assumptions.
abbrev pub steal_first : List ℕ → Steal (List ℕ)
steal_first [] = empty
steal_first (x ∷ xs) = stolen x xs

abbrev pub steal_list : Bool → List ℕ → Steal (List ℕ)
steal_list b xs = if b then inconsistent else steal_first xs

pub steal_list-stolen :
    (b : Bool) (q r : List ℕ) (x : ℕ) → steal_list b q ≡ stolen x r → Perm q (x ∷ r)
steal_list-stolen true q r x e = cc
steal_list-stolen false [] r x e = cc
steal_list-stolen false (y ∷ q) r x e = let same : y ∷ q ≡ x ∷ r = cc in rw same (Perm.refl (x ∷ r))

pub steal_list-empty : (b : Bool) (q : List ℕ) → steal_list b q ≡ empty → q ≡ []
steal_list-empty true q e = cc
steal_list-empty false [] e = refl
steal_list-empty false (y ∷ q) e = cc

pub steal_list-calm : (q : List ℕ) → steal_list false q ≢ inconsistent
steal_list-calm [] e = cc
steal_list-calm (x ∷ q) e = cc

abbrev pub list_deque : Deque
list_deque = record {
  Queue = List ℕ;
  contents = λ q. q;
  new = [];
  push = λ x q. q ++ x ∷ [];
  steal_weak = steal_list;
  contents-new = refl;
  contents-push = λ x q. snoc-perm q x (Perm.refl q);
  steal_weak_stolen = steal_list-stolen;
  steal_weak_empty = steal_list-empty;
  steal_weak_calm = steal_list-calm;
}
