-- ===== src/Bytes.antt =====
-- The buffers that the sockets read into and write from, as the unsafe code of epoll/net.rs sees
-- them: `BytesMut` is its memory (as long as its capacity) and the length of the part in use;
-- `Bytes` is a list.
use complete_io.Base.{
  ℕ, zero, suc, ◌≤◌, ◌≡◌, refl, ap, sym, ◌∙◌, inl, inr, Bool-cases, List, [], ◌∷◌, ◌++◌, length,
  ltb, if◌then◌else◌, arith,
}

abbrev pub take : ℕ → List ℕ → List ℕ
take zero xs = []
take (suc n) [] = []
take (suc n) (x ∷ xs) = x ∷ take n xs

abbrev pub drop : ℕ → List ℕ → List ℕ
drop zero xs = xs
drop (suc n) [] = []
drop (suc n) (x ∷ xs) = drop n xs

pub record BytesMut : Type 0 where
  pub memory : List ℕ
  pub len : ℕ

abbrev pub capacity : BytesMut → ℕ
capacity b = length b.memory

abbrev pub contents : BytesMut → List ℕ
contents b = take b.len b.memory

-- What the kernel does with a pointer to the memory: it writes from the start, within the capacity.
unfoldable pub overwrite : List ℕ → List ℕ → List ℕ
overwrite [] memory = memory
overwrite (x ∷ xs) [] = []
overwrite (x ∷ xs) (m ∷ memory) = x ∷ overwrite xs memory

-- `data` has been received; the length grows if it went past the part in use.
unfoldable pub receive : List ℕ → BytesMut → BytesMut
unfolding overwrite
receive received b =
    let byte_count = length received in
    record b {
      memory = overwrite received b.memory;
      len = if ltb b.len byte_count then byte_count else b.len;
    }

length-overwrite : (xs memory : List ℕ) → length (overwrite xs memory) ≡ length memory
unfolding overwrite
length-overwrite [] memory = refl
length-overwrite (x ∷ xs) [] = refl
length-overwrite (x ∷ xs) (m ∷ memory) = ap suc (length-overwrite xs memory)

take-overwrite_short :
    (n : ℕ) (xs memory : List ℕ)
    → length xs ≤ n
    → length xs ≤ length memory
    → take n (overwrite xs memory) ≡ xs ++ drop (length xs) (take n memory)
unfolding overwrite
take-overwrite_short n [] memory h k = refl
take-overwrite_short n (x ∷ xs) [] h k = absurd (omega arith)
take-overwrite_short zero (x ∷ xs) (m ∷ memory) h k = absurd (omega arith)
take-overwrite_short (suc n) (x ∷ xs) (m ∷ memory) h k =
    ap (◌∷◌ x) (take-overwrite_short n xs memory (omega arith) (omega arith))

drop-take : (n k : ℕ) (xs : List ℕ) → k ≤ n → drop n (take k xs) ≡ []
drop-take zero zero xs h = refl
drop-take zero (suc k) xs h = absurd (omega arith)
drop-take (suc n) zero xs h = refl
drop-take (suc n) (suc k) [] h = refl
drop-take (suc n) (suc k) (x ∷ xs) h = drop-take n k xs (omega arith)

-- What was received stands at the start, and older bytes behind it stay.
pub contents-receive :
    (received : List ℕ) (b : BytesMut)
    → length received ≤ capacity b
    → contents (receive received b) ≡ received ++ drop (length received) (contents b)
unfolding receive
contents-receive received b h = elim (Bool-cases (ltb b.len (length received))) [
  | inl longer ↦ rw longer (
      take-overwrite_short (length received) received b.memory (omega arith) h
      ∙ ap (◌++◌ received) (
          drop-take (length received) (length received) b.memory (omega arith)
          ∙ sym (drop-take (length received) b.len b.memory (ground arith))))
  | inr shorter ↦ rw shorter (take-overwrite_short b.len received b.memory (ground arith) h)
]

pub receive-capacity :
    (received : List ℕ) (b : BytesMut)
    → length received ≤ capacity b
    → b.len ≤ capacity b
    → ((receive received b).len ≤ capacity (receive received b))
      × (capacity (receive received b) ≡ capacity b)
unfolding receive
receive-capacity received b h k = ground (arith, length-overwrite received b.memory)
