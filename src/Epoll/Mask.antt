-- ===== src/Epoll/Mask.antt =====
-- src/epoll/mod.rs: the flag sets `EventMask` and `EventMode` that `bitflags!` declares. A set is
-- a record of its flags, and `bits` is the `u32` that goes to the kernel.
use Prim.Native.Nat.{bit_or}
use complete_io.Base.{ℕ, ◌/◌, ◌%◌, ◌^◌, Bool, true, false, ◌&&◌, ◌||◌, not, if◌then◌else◌, ◌==◌}

pub record EventMask : Type 0 where
  pub read : Bool
  pub write : Bool
  pub read_hup : Bool
  pub exceptional : Bool
  pub error : Bool
  pub hup : Bool

pub record EventMode : Type 0 where
  pub edge : Bool
  pub one_shot : Bool

abbrev flag : Bool → ℕ → ℕ
flag b n = if b then n else 0

-- `EventMask::bits`, with the constants of libc.
unfoldable pub bits : EventMask → ℕ
bits m = bit_or (flag m.read 0x1) (
    bit_or (flag m.write 0x4) (
      bit_or (flag m.read_hup 0x2000)
        (bit_or (flag m.exceptional 0x2) (bit_or (flag m.error 0x8) (flag m.hup 0x10)))))

-- `EventMode::bits`
unfoldable pub mode_bits : EventMode → ℕ
mode_bits m = bit_or (flag m.edge (2 ^ 31)) (flag m.one_shot (2 ^ 30))

abbrev bit : ℕ → ℕ → Bool
bit n k = n / 2 ^ k % 2 == 1

-- `EventMask::from_bits_truncate`: bits that name no flag are dropped.
unfoldable pub from_bits_truncate : ℕ → EventMask
from_bits_truncate n = record {
  read = bit n 0;
  write = bit n 2;
  read_hup = bit n 13;
  exceptional = bit n 1;
  error = bit n 3;
  hup = bit n 4;
}

abbrev pub empty : EventMask
empty = record {
  read = false;
  write = false;
  read_hup = false;
  exceptional = false;
  error = false;
  hup = false;
}

-- `EventMask::READ`, `EventMask::WRITE`
abbrev pub read_only : EventMask
read_only = record empty { read = true }

abbrev pub write_only : EventMask
write_only = record empty { write = true }

-- `EventMask::HUP | EventMask::ERROR`
abbrev pub hup_or_error : EventMask
hup_or_error = record empty { hup = true; error = true }

-- `EventMode::EDGE | EventMode::ONE_SHOT`, `EventMode::ONE_SHOT`
abbrev pub edge_one_shot : EventMode
edge_one_shot = record { edge = true; one_shot = true }

abbrev pub one_shot_only : EventMode
one_shot_only = record { edge = false; one_shot = true }

-- `a | b`
unfoldable pub union : EventMask → EventMask → EventMask
union a b = record {
  read = a.read || b.read;
  write = a.write || b.write;
  read_hup = a.read_hup || b.read_hup;
  exceptional = a.exceptional || b.exceptional;
  error = a.error || b.error;
  hup = a.hup || b.hup;
}

abbrev implies : Bool → Bool → Bool
implies a b = not a || b

-- `a.contains(b)`: each flag of `b` is in `a`.
unfoldable pub contains : EventMask → EventMask → Bool
contains a b =
    implies b.read a.read
    && implies b.write a.write
    && implies b.read_hup a.read_hup
    && implies b.exceptional a.exceptional
    && implies b.error a.error
    && implies b.hup a.hup

-- `a.intersects(b)`: some flag is in both.
unfoldable pub intersects : EventMask → EventMask → Bool
intersects a b =
    a.read && b.read
    || a.write && b.write
    || a.read_hup && b.read_hup
    || a.exceptional && b.exceptional
    || a.error && b.error
    || a.hup && b.hup
