-- ===== src/Driver/Power.antt =====
-- Resets and power management (jockey3.c): `jockey3_pre_reset`, `jockey3_post_reset`,
-- `jockey3_suspend`, `jockey3_restore_device`, `jockey3_resume` and `jockey3_reset_resume`, as the
-- callbacks of interface 0.
pub mod Sleep
pub mod Wake
use alsa_jockey.Prelude.{Bool, true, false, not, ◌&&◌, if◌then◌else◌, Option, none, some}
use alsa_jockey.Errno.{Errno}
use alsa_jockey.Proto.Calls.{get_rate, rate_idx_device}
use alsa_jockey.Stream.State.{UrbStream, playback_direction, capture_direction}
use alsa_jockey.Driver.World.{Host, World, unless_failed}
use alsa_jockey.Driver.Ring.{stop_urbs, start_urbs}
use alsa_jockey.Driver.Device.{jockey3_set_rate, initialize_ploytec}

unfoldable pub quiesce : Bool → UrbStream → UrbStream
quiesce told s = record s { running = s.running && not told }

module _ {Env Src : Type 0} where
  -- The end of a reset that this driver did not queue.
  unfoldable pub finish_foreign_reset : World Env Src → World Env Src
  finish_foreign_reset w = record w {
    chip = record (w.chip) { reset_rc = none; resetting = false; reset_done = true };
  }

module _ {Env Src : Type 0} (host : Host Env Src) where
  unfoldable pub pre_reset : World Env Src → World Env Src
  pre_reset w = stop_urbs host (record w {
    chip = record (w.chip) {
      reset_done = if w.chip.resetting then w.chip.reset_done else false;
      resetting = true;
    };
  })

  -- Initialization, the read of the rate, which is for the log, and the rate.
  unfoldable pub bring_back : World Env Src → World Env Src
  bring_back w =
      let (w1, _) = initialize_ploytec host w in
      let (usb, _) = get_rate host.answer rate_idx_device w1.usb in
      (jockey3_set_rate host w1.chip.current_rate true (record w1 { usb = usb })).0

  -- `by_work`: whether the driver's own reset_work is what resets.
  unfoldable pub post_reset : Bool → World Env Src → World Env Src
  post_reset by_work w =
      let (started, _) = start_urbs host false (bring_back w) in
      if by_work then started else finish_foreign_reset started

  unfoldable pub suspend : World Env Src → World Env Src
  suspend w = stop_urbs host (record w {
    chip = record (w.chip) {
      suspended = true;
      playback = quiesce (host.suspends w.usb.device playback_direction) w.chip.playback;
      capture = quiesce (host.suspends w.usb.device capture_direction) w.chip.capture;
    };
  })

  -- The rate, and the rings.
  unfoldable pub restore_streams : World Env Src → World Env Src × Option Errno
  restore_streams w =
      let (w1, failed) = jockey3_set_rate host w.chip.current_rate true w in
      let started = start_urbs host false w1 in unless_failed failed (λ e. (w1, some e)) started

  unfoldable pub restore_device : Bool → World Env Src → World Env Src × Option Errno
  restore_device reset w =
      let awake = record w { chip = record (w.chip) { suspended = false } } in
      let (w1, failed) = initialize_ploytec host awake in
      if reset
      then unless_failed failed (λ e. (w1, some e)) (restore_streams w1)
      else restore_streams awake

  unfoldable pub resume : World Env Src → World Env Src × Option Errno
  resume w = restore_device false w

  unfoldable pub reset_resume : World Env Src → World Env Src × Option Errno
  reset_resume w = restore_device true w
