-- ===== src/Stream/Capture/Callback.antt =====
-- What `jockey3_capture_callback` (jockey3.c) guarantees on every path through it.
use alsa_jockey.Prelude.{
  ◌+◌, ◌-◌, ◌^◌, ◌≤◌, ◌<◌, ◌≡◌, refl, Bool, true, false, ◌||◌, if◌then◌else◌, none,
}
use alsa_jockey.Codec.Batch.{Variant, CodecState}
use alsa_jockey.Stream.State.{UrbStream, max_urb_errors}
use alsa_jockey.Stream.Errors.{
  UrbState, urb_check, urb_ok, urb_stopped, urb_error, AlsaCore, urb_error_give_up,
}
use alsa_jockey.Stream.Capture.{Completion, Done, capture_completed, capture_callback}
use alsa_jockey.Stream.Handler.{one_if}
use alsa_jockey.Stream.Handler.Status.{IsHandled, handle, handle-IsHandled}
use alsa_jockey.Stream.Capture.Balance.{capture_completed-IsCompleted}

module _ (v : Variant) (codec : CodecState) (core : AlsaCore) where
  -- The handler is the shared one around its own packet loop.
  by_status :
      (u : UrbState) (gone : Bool) (c : Completion) (s : UrbStream)
      → let s0 = record s { urbs_in_flight = s.urbs_in_flight - 1 } in
        let (blamed, give_up) = urb_error_give_up core s0 in
        (elim u as (λ _. Done) [
          | urb_stopped ↦ record { stream = s0; submitted = none }
          | urb_error ↦
              if give_up || gone
              then record { stream = blamed; submitted = none }
              else capture_completed v codec core gone false c blamed
          | urb_ok ↦
              if gone
              then record { stream = s0; submitted = none }
              else capture_completed v codec core gone true c s0
        ])
        ≡ handle core u gone (λ valid t. capture_completed v codec core gone valid c t) s
  unfolding handle
  by_status urb_stopped gone c s = refl
  by_status urb_error gone c s = refl
  by_status urb_ok gone c s = refl

  pub capture_callback-handle :
      (gone : Bool) (c : Completion) (s : UrbStream)
      → capture_callback v codec core gone c s
        ≡ handle core
            (urb_check c.status)
            gone
            (λ valid t. capture_completed v codec core gone valid c t)
            s
  unfolding capture_callback
  capture_callback-handle gone c s = by_status (urb_check c.status) gone c s

  pub callback-IsHandled :
      (gone : Bool) (c : Completion) (s : UrbStream)
      → IsHandled
          (urb_check c.status)
          gone
          c.submit_result
          s
          (capture_callback v codec core gone c s)
  callback-IsHandled gone c s = rw (capture_callback-handle gone c s) (
      handle-IsHandled core (urb_check c.status) gone c.submit_result
        (λ valid t. capture_completed v codec core gone valid c t) s
        (λ valid t. capture_completed-IsCompleted v codec core gone valid c t))

  -- A completed capture URB is counted down once, and up again exactly when it is taken back by
  -- usb_submit_urb; and the callback leaves the safe zone as often as it entered it.
  pub capture_callback-balance :
      (gone : Bool) (c : Completion) (s : UrbStream)
      → let d = capture_callback v codec core gone c s in
        (d.stream.urbs_in_flight ≡ s.urbs_in_flight - 1 + one_if d.submitted)
        × (d.stream.callbacks_active ≡ s.callbacks_active)
  capture_callback-balance gone c s = let h = callback-IsHandled gone c s in (h.in_flight, h.active)

  -- A capture URB is not resubmitted while the direction is being stopped or when the device is
  -- gone; nor once the direction has given up (8 errors in a row), from which no completion, good
  -- or bad, takes it back, as long as the error count does not wrap.
  pub capture_callback-halts :
      (gone : Bool) (c : Completion) (s : UrbStream)
      → let d = capture_callback v codec core gone c s in
        (s.stopping ≡ true → d.submitted ≡ none)
        × (gone ≡ true → d.submitted ≡ none)
        × (max_urb_errors ≤ s.consec_errors
            → s.consec_errors + 1 < 2 ^ 32
            → (d.submitted ≡ none) × (max_urb_errors ≤ d.stream.consec_errors))
  capture_callback-halts gone c s =
      let h = callback-IsHandled gone c s in
      (h.stopping_end, h.gone_end, λ a b. (h.given_up_end a b, h.given_up a b))
