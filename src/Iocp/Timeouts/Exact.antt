-- ===== src/Iocp/Timeouts/Exact.antt =====
-- src/iocp/mod.rs and src/epoll/mod.rs: which timeouts reach the system call as they were asked for.
use complete_io.Base.{ℕ, ◌-◌, ◌*◌, ◌/◌, ◌%◌, ◌<◌, ◌≤◌, ◌≡◌, some, arith, ap, ◌∙◌}
use complete_io.Iocp.Timeouts.{
  Duration, u32_mod, millis, add_u32, ms_timeout, pos, negsuc, as_i32, timeout_ms,
}

-- A timeout of fewer than 2^32 milliseconds reaches the completion port as its whole milliseconds.
ms_timeout_exact : (d : Duration) → millis d < u32_mod → ms_timeout (some d) ≡ millis d
unfolding ms_timeout
ms_timeout_exact d h = omega arith

-- No wrap-around below 2^32 milliseconds.
word :
    (d : Duration)
    → millis d < u32_mod
    → add_u32 ((d.secs % u32_mod * 1000) % u32_mod) (d.nanos / 1000000) ≡ millis d
unfolding add_u32
word d h = omega arith

as_i32-small : (n : ℕ) → n < 2147483648 → as_i32 n ≡ pos n
unfolding as_i32
as_i32-small n h = ground arith

as_i32-large : (n : ℕ) → 2147483648 ≤ n → as_i32 n ≡ negsuc (4294967295 - n)
unfolding as_i32
as_i32-large n h = ground arith

-- A timeout of fewer than 2^31 milliseconds reaches epoll_wait as its whole milliseconds.
timeout_ms_exact : (d : Duration) → millis d < 2147483648 → timeout_ms (some d) ≡ pos (millis d)
unfolding timeout_ms
timeout_ms_exact d h = ap as_i32 (word d (omega arith)) ∙ as_i32-small (millis d) h

-- A timeout from 2^31 to fewer than 2^32 milliseconds reaches epoll_wait as a negative number, which waits
-- for ever.
pub timeout_ms_endless :
    (d : Duration)
    → 2147483648 ≤ millis d
    → millis d < u32_mod
    → (n : ℕ) × (timeout_ms (some d) ≡ negsuc n)
unfolding timeout_ms
timeout_ms_endless d l h = (4294967295 - millis d, ap as_i32 (word d h) ∙ as_i32-large (millis d) l)
