-- ===== src/Driver/Reset.antt =====
-- The driver's own USB reset (jockey3.c): `jockey3_queue_reset`, `jockey3_reset_work`,
-- `jockey3_wait_reset_done` and `jockey3_wait_for_reset_completion`.
use alsa_jockey.Prelude.{true, false, if◌then◌else◌, Option, none, some}
use alsa_jockey.Errno.{Errno, enodev, eagain}
use alsa_jockey.Driver.World.{
  Host, World, reset_asked, unless_failed, Wait, reset_runs, released, timed_out, set_env, add_note,
}
use alsa_jockey.Driver.Power.{pre_reset, post_reset}

module _ {Env Src : Type 0} where
  unfoldable pub queue_reset : World Env Src → World Env Src
  queue_reset w =
      if w.chip.resetting
      then w
      else add_note reset_asked (record w {
        chip = record (w.chip) { reset_done = false; resetting = true };
        reset_scheduled = true;
      })

  unfoldable pub finish_reset : Option Errno → World Env Src → World Env Src
  finish_reset rc w = record w {
    chip = record (w.chip) { reset_rc = rc; resetting = false; reset_done = true };
  }

  -- What follows the wait.
  unfoldable pub unless_gone : World Env Src → World Env Src × Option Errno
  unless_gone w = (w, if w.chip.disconnected then some enodev else none)

module _ {Env Src : Type 0} (host : Host Env Src) where
  -- `usb_reset_device` under the device lock, with the driver's callbacks around it.
  unfoldable pub reset_device : World Env Src → World Env Src × Option Errno
  reset_device w =
      let down = pre_reset host w in
      let (env, failed, calls_post_reset) = host.reset_port down.usb.device in
      let after = set_env down env in
      (if calls_post_reset then post_reset host true after else after, failed)

  unfoldable pub reset_work : World Env Src → World Env Src
  reset_work w =
      let (env, refused) = host.lock_for_reset w.usb.device in
      let locked = record (set_env w env) { reset_scheduled = false } in
      let (done, failed) = reset_device locked in
      unless_failed refused (λ e. finish_reset (some e) locked) (finish_reset failed done)

  -- The reset in flight runs to its end: the driver's own, or one started elsewhere.
  unfoldable pub reset_ends : World Env Src → World Env Src
  reset_ends w = if w.reset_scheduled then reset_work w else post_reset host false w

  unfoldable pub wait_ends : Wait → World Env Src → World Env Src × Option Errno
  wait_ends reset_runs w = unless_gone (reset_ends w)
  wait_ends released w =
      unless_gone (record w { chip = record (w.chip) { disconnected = true; reset_done = true } })
  wait_ends timed_out w = (w, some eagain)

  unfoldable pub wait_reset_done : World Env Src → World Env Src × Option Errno
  wait_reset_done w =
      if w.chip.reset_done then unless_gone w else wait_ends (host.reset_wait w.usb.device) w

  unfoldable pub wait_for_reset_completion : World Env Src → World Env Src × Option Errno
  wait_for_reset_completion w = if w.chip.resetting then wait_reset_done w else (w, none)
