-- ===== src/Epoll/CustomEvents/Outside.antt =====
-- What the custom events rely on and this repository does not implement: the eventfd of Linux, opened
-- with EFD_NONBLOCK and EFD_SEMAPHORE (eventfd(2)), and crossbeam's `SegQueue` as a FIFO queue.
use complete_io.Base.{
  ℕ, zero, suc, ◌<◌, arith, ◌≡◌, refl, ◌-◌, ◌==◌, if◌then◌else◌, Option, none, some, List, [], ◌∷◌,
  ◌++◌,
}

pub record EventFd : Type 1 where
  pub Fd : Type 0
  pub count : Fd → ℕ
  pub create : Fd
  pub write : Fd → Fd  -- of 1
  pub read : Fd → Option Fd  -- `none` is `WouldBlock`
  pub count-create : count create ≡ 0
  pub count-write : (f : Fd) → count (write f) ≡ suc (count f)
  pub read_readable : (f : Fd) → 0 < count f → (g : Fd) × (read f ≡ some g)

pub record DataQueue : Type 1 where
  pub Queue : Type 0
  pub contents : Queue → List ℕ
  pub new : Queue
  pub push : ℕ → Queue → Queue
  pub try_pop : Queue → Option (ℕ × Queue)
  pub contents-new : contents new ≡ []
  pub contents-push : (x : ℕ) (q : Queue) → contents (push x q) ≡ contents q ++ x ∷ []
  pub try_pop_none : (q : Queue) → try_pop q ≡ none → contents q ≡ []
  pub try_pop_some : (q r : Queue) (x : ℕ) → try_pop q ≡ some (x, r) → contents q ≡ x ∷ contents r

-- A counter and a list meet these assumptions.
abbrev pub take_one : ℕ → Option ℕ
take_one n = if n == 0 then none else some (n - 1)

pub take_one_positive : (n : ℕ) → 0 < n → (m : ℕ) × (take_one n ≡ some m)
take_one_positive zero h = absurd (omega arith)
take_one_positive (suc n) h = (n, ground arith)

abbrev pub counter : EventFd
counter = record {
  Fd = ℕ;
  count = λ n. n;
  create = 0;
  write = suc;
  read = take_one;
  count-create = refl;
  count-write = λ n. refl;
  read_readable = take_one_positive;
}

abbrev pub split : List ℕ → Option (ℕ × List ℕ)
split [] = none
split (x ∷ xs) = some (x, xs)

pub split-none : (q : List ℕ) → split q ≡ none → q ≡ []
split-none [] e = refl
split-none (x ∷ q) e = cc

pub split-some : (q r : List ℕ) (x : ℕ) → split q ≡ some (x, r) → q ≡ x ∷ r
split-some [] r x e = cc
split-some (y ∷ q) r x e = cc

abbrev pub fifo : DataQueue
fifo = record {
  Queue = List ℕ;
  contents = λ q. q;
  new = [];
  push = λ x q. q ++ x ∷ [];
  try_pop = split;
  contents-new = refl;
  contents-push = λ x q. refl;
  try_pop_none = split-none;
  try_pop_some = split-some;
}
