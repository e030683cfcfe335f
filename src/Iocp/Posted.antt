-- ===== src/Iocp/Posted.antt =====
-- src/iocp/mod.rs: a custom event from its post to its handler.
use complete_io.Base.{
  ℕ, ◌≡◌, ◌≢◌, refl, sym, ap, [], ◌∷◌, Option, ok, ◌==◌, arith, Bool-cases, inl, inr, ==_iff,
}
use complete_io.Iocp.Timeouts.{Duration}
use complete_io.Iocp.{
  got, EventTag, Packet, post_custom_event, packet, callback, dispatch, poll_iocp,
  future_notify_iocp_token,
}

pub dispatch-custom :
    (iocp_id : ℕ) (event : EventTag) (data_word : ℕ)
    → event.callback_ptr ≢ future_notify_iocp_token
    → event.iocp_id ≡ iocp_id
    → dispatch iocp_id (record { token = event.callback_ptr; overlapped = data_word })
      ≡ callback event.callback_ptr event data_word
unfolding dispatch
dispatch-custom iocp_id event data_word n same =
    elim (Bool-cases (event.callback_ptr == future_notify_iocp_token)) [
      | inl h ↦ absurd (n ((==_iff _ _).0 h))
      | inr h ↦ rw (h, sym same) refl
    ]

-- A custom event that is posted with a tag of this port, whose handler is not at address 1, is
-- handed by the turn that takes its packet to the handler of the tag, once, with the tag and the data
-- as they were posted.
posted_is_handled :
    (iocp_id : ℕ) (timeout : Option Duration) (event : EventTag) (data_word : ℕ)
    → event.callback_ptr ≢ future_notify_iocp_token
    → event.iocp_id ≡ iocp_id
    → (p : Packet) × (post_custom_event iocp_id (got tt) event data_word ≡ ok p)
      × (poll_iocp iocp_id timeout (packet p)
          ≡ (ok 1, callback event.callback_ptr event data_word ∷ []))
unfolding post_custom_event poll_iocp
posted_is_handled iocp_id timeout event data_word n same = (
  record { token = event.callback_ptr; overlapped = data_word },
  ground arith,
  ap (λ a. (ok 1, a ∷ [])) (dispatch-custom iocp_id event data_word n same),
)
