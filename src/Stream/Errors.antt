-- ===== src/Stream/Errors.antt =====
-- What a completion handler does with a URB's status: `jockey3_urb_check`,
-- `jockey3_urb_error_give_up`, `jockey3_report_xrun` and `jockey3_note_completion` (jockey3.c).
use alsa_jockey.Prelude.{
  ℕ, ◌+◌, ◌-◌, Bool, true, false, ltb, ◌==◌, ◌&&◌, if◌then◌else◌, u32, Option, none, some,
}
use alsa_jockey.Errno.{Errno, enoent, enodev, econnreset, eshutdown}
use alsa_jockey.Stream.State.{UrbStream, has_substream, max_urb_errors}

pub data UrbState : Type 0 where
  urb_ok urb_stopped urb_error : UrbState

unfoldable pub urb_check : Option Errno → UrbState
urb_check none = urb_ok
urb_check (some enoent) = urb_stopped
urb_check (some econnreset) = urb_stopped
urb_check (some eshutdown) = urb_stopped
urb_check (some _) = urb_error

-- The ALSA core may call the driver's .trigger from `snd_pcm_period_elapsed` and from
-- `snd_pcm_stop_xrun`: what `running` is when they return.
pub record AlsaCore : Type 0 where
  pub after_period : UrbStream → Bool
  pub after_xrun : UrbStream → Bool

module _ (core : AlsaCore) where
  unfoldable pub report_xrun : UrbStream → UrbStream
  report_xrun s =
      if s.running && has_substream s
      then (let joined = record s { callbacks_active = s.callbacks_active + 1 } in
          let told = record joined { running = core.after_xrun joined } in
          record told { callbacks_active = told.callbacks_active - 1 })
      else s

  -- The result tells whether to give up.
  unfoldable pub urb_error_give_up : UrbStream → UrbStream × Bool
  urb_error_give_up s =
      let s' = record s { consec_errors = u32 (s.consec_errors + 1) } in
      if ltb max_urb_errors s'.consec_errors
      then (s', true)
      else if s'.consec_errors == max_urb_errors
      then (report_xrun s', true)
      else (s', false)

unfoldable pub note_completion : UrbStream → ℕ → UrbStream
note_completion s now =
    let n = u32 (s.completions_since_start + 1) in
    record s {
      last_callback_time = now;
      completions_since_start = n;
      first_callback_time = if n == 1 then now else s.first_callback_time;
    }

-- What `jockey3_err_device_gone` calls a device that has left.
unfoldable pub err_device_gone : Errno → Bool
err_device_gone enodev = true
err_device_gone eshutdown = true
err_device_gone _ = false
