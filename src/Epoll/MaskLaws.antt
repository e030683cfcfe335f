-- ===== src/Epoll/MaskLaws.antt =====
-- The algebra of event masks, and what survives the way through the kernel's `u32`.
use Prim.Native.Nat.{bit_or}
use complete_io.Base.{◌≡◌, true, arith}
use complete_io.Epoll.Mask.{
  EventMask, EventMode, bits, mode_bits, from_bits_truncate, empty, union, contains,
}

-- What is registered with the kernel is read back from the word that carries it: neither the mode
-- nor another flag disturbs a flag of the mask.
from_bits_truncate-event :
    (m : EventMask) (k : EventMode) → from_bits_truncate (bit_or (bits m) (mode_bits k)) ≡ m
unfolding bits mode_bits from_bits_truncate
from_bits_truncate-event m k = ground arith

contains_refl : (a : EventMask) → contains a a ≡ true
unfolding contains
contains_refl a = ground arith

union-empty_left : (a : EventMask) → union empty a ≡ a
unfolding union
union-empty_left a = ground arith

union_assoc : (a b c : EventMask) → union (union a b) c ≡ union a (union b c)
unfolding union
union_assoc a b c = ground arith

pub union_of_contains : (a b : EventMask) → contains a b ≡ true → union a b ≡ a
unfolding union contains
union_of_contains a b h = ground arith

pub contains-union_right : (a b : EventMask) → contains (union a b) b ≡ true
unfolding union contains
contains-union_right a b = ground arith
