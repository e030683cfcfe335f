-- ===== src/Base/Results.antt =====
-- Results of fallible code: `std::io::Result` with its errors by number, and panics.
use Prim.Native.Nat.{ℕ}
use mathlib.Core.Bool.{Bool, false}
use complete_io.Base.Tests.{◌==◌}

-- `std::io::Error`: a raw OS error (errno), or the kind `WriteZero` with no errno.
pub data IoError : Type 0 where
  os : ℕ → IoError
  write_zero : IoError

-- libc on Linux.
abbrev pub eintr : ℕ
eintr = 4

abbrev pub eagain : ℕ
eagain = 11

abbrev pub einprogress : ℕ
einprogress = 115

-- `err.kind() == io::ErrorKind::WouldBlock`
abbrev pub would_block : IoError → Bool
would_block (os n) = n == eagain
would_block write_zero = false

-- `err.kind() == io::ErrorKind::Interrupted`
abbrev pub interrupted : IoError → Bool
interrupted (os n) = n == eintr
interrupted write_zero = false

-- What a call comes back with: a value, an `Err`, or a panic.
pub data Result {ℓ} (A : Type ℓ) : Type ℓ where
  ok : A → Result A
  err : IoError → Result A
  panic : Result A

-- `futures::Async`
pub data Async {ℓ} (A : Type ℓ) : Type ℓ where
  ready : A → Async A
  not_ready : Async A
