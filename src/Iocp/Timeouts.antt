-- ===== src/Iocp/Timeouts.antt =====
-- src/iocp/mod.rs and src/epoll/mod.rs: how a turn of each queue writes its timeout in milliseconds.
pub mod Exact
use complete_io.Base.{
  ℕ, ◌+◌, ◌-◌, ◌*◌, ◌/◌, ◌%◌, ◌<◌, ◌≤◌, ◌≡◌, ◌≢◌, refl, Option, none, some, ltb, if◌then◌else◌,
  arith,
}

-- `Duration`: whole seconds and the nanoseconds below one.
pub record Duration : Type 0 where
  pub secs : ℕ
  pub nanos : ℕ

abbrev pub u32_mod : ℕ
u32_mod = 4294967296

abbrev pub u64_mod : ℕ
u64_mod = 18446744073709551616

-- `INFINITE`
abbrev pub infinite : ℕ
infinite = 4294967295

-- The whole milliseconds of a duration.
abbrev pub millis : Duration → ℕ
millis d = d.secs * 1000 + d.nanos / 1000000

-- A sum of `u32`, as a release build computes it.
unfoldable pub add_u32 : ℕ → ℕ → ℕ
add_u32 a b = (a + b) % u32_mod

-- `ms_timeout` of `Inner::poll_iocp`
unfoldable pub ms_timeout : Option Duration → ℕ
unfolding add_u32
ms_timeout none = infinite
ms_timeout (some d) = add_u32 ((d.secs * 1000) % u64_mod % u32_mod) (d.nanos / 1000000)

-- An `i32`: how far it is above -1, or below 0.
pub data I32 : Type 0 where
  pos : ℕ → I32
  negsuc : ℕ → I32

-- `as i32`, of a `u32`
unfoldable pub as_i32 : ℕ → I32
as_i32 n = if ltb n 2147483648 then pos n else negsuc (4294967295 - n)

-- `timeout_ms` of `Inner::poll` in epoll/mod.rs. A negative timeout of epoll_wait has no end.
unfoldable pub timeout_ms : Option Duration → I32
unfolding add_u32 as_i32
timeout_ms none = negsuc 0
timeout_ms (some d) = as_i32 (add_u32 ((d.secs % u32_mod * 1000) % u32_mod) (d.nanos / 1000000))
