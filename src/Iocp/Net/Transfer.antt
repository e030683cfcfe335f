-- ===== src/Iocp/Net/Transfer.antt =====
-- src/iocp/net.rs: what a finished operation hands back, and what a dropped future leaves behind.
use complete_io.Base.{
  ℕ, ◌≡◌, refl, List, length, ok, err, ready, write_zero, ◌==◌, if◌then◌else◌, false, arith,
  Bool-cases, inl, inr,
}
use complete_io.Iocp.{Overlapped, Submitted, at_once, got, complete}
use complete_io.Iocp.Net.{Place, is_inline, ensure_safe}
use complete_io.Iocp.Net.SendTo

-- A datagram that Windows sent, at once or later, is either sent whole, and the future gives back its
-- socket and bytes, or in part, and the future fails with `WriteZero`.
iocp_send_to_whole :
    (n me socket addr : ℕ) (call : Submitted ℕ) (buffer : List ℕ) (o : Overlapped ℕ)
    → o.status ≡ complete (got n)
    → ((SendTo.poll me (at_once n) (SendTo.initial socket buffer addr) o).result
        ≡ (if n == length buffer then ok (ready (socket, buffer)) else err write_zero))
      × ((SendTo.poll me call (SendTo.pending socket buffer) o).result
          ≡ (if n == length buffer then ok (ready (socket, buffer)) else err write_zero))
unfolding SendTo.poll SendTo.sent
iocp_send_to_whole n me socket addr call buffer o q = (ground arith, rw q (ground arith))

-- If the copy is allocated outside of the struct, then `ensure_bytes_safe` leaves a buffer whose data
-- are outside of its struct, and a second call moves nothing.
ensure_safe_moves :
    (allocated : ℕ) (b : Place)
    → is_inline (record b { data_ptr = allocated }) ≡ false
    → (is_inline (ensure_safe allocated b) ≡ false)
      × (ensure_safe allocated (ensure_safe allocated b) ≡ ensure_safe allocated b)
unfolding ensure_safe
ensure_safe_moves allocated b q = elim (Bool-cases (is_inline b)) [
  | inl h ↦ rw h (q, rw q refl)
  | inr h ↦ rw h (h, rw h refl)
]
