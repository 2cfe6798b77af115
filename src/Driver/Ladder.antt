-- ===== src/Driver/Ladder.antt =====
-- Bringing a stalled direction back (jockey3.c): `jockey3_wait_urb_stream_started`,
-- `jockey3_run_recovery_ladder` and `jockey3_recover_urb_stream`.
pub mod Resets
pub mod Window
pub mod Rounds
use alsa_jockey.Prelude.{
  ℕ, zero, suc, ◌+◌, ◌*◌, Bool, true, false, not, ltb, ◌||◌, if◌then◌else◌, Option, none, some,
}
use alsa_jockey.Errno.{Errno, enodev}
use alsa_jockey.Stream.State.{
  UrbStream, Direction, playback_direction, capture_direction, get_pcm_urb_stream, nsec_per_msec,
}
use alsa_jockey.Stream.Errors.{report_xrun}
use alsa_jockey.Recovery.Budget.{recovery_budget_take}
use alsa_jockey.Recovery.Liveness.{check_urb_stream_alive, stream_streaming_healthy}
use alsa_jockey.Driver.World.{Host, World, unless_failed, set_env, all_happen}
use alsa_jockey.Driver.Ring.{stop_urbs, start_urbs}
use alsa_jockey.Driver.Reset.{queue_reset, wait_reset_done}

-- A nap takes at least half a millisecond, a jiffy at most ten.
abbrev pub rounds : ℕ → ℕ
rounds timeout_ms = suc (20 * timeout_ms)

abbrev pub confirmed : Option Bool → Bool
confirmed none = false
confirmed (some up) = up

module _ {Env Src : Type 0} where
  unfoldable pub set_in_progress : Bool → World Env Src → World Env Src
  set_in_progress b w = record w { chip = record (w.chip) { recovery_in_progress = b } }

module _ {Env Src : Type 0} (host : Host Env Src) where
  unfoldable pub is_alive : Direction → World Env Src → Bool
  is_alive d w = check_urb_stream_alive (host.clock w.usb.device) (get_pcm_urb_stream w.chip d)

  unfoldable pub is_up : Bool → Direction → World Env Src → Bool
  is_up require_healthy d w =
      if require_healthy
      then stream_streaming_healthy (host.clock w.usb.device) w.chip.current_rate d
          (get_pcm_urb_stream w.chip d)
      else is_alive d w

  unfoldable pub nap : World Env Src → World Env Src
  nap w = let (env, events) = host.nap w.usb.device in all_happen host events (set_env w env)

  -- The loop of `jockey3_wait_urb_stream_started`, for `fuel` rounds at most; `none` where they are
  -- used up. `deadline` is in jiffies.
  unfoldable pub poll : ℕ → Direction → ℕ → Bool → World Env Src → World Env Src × Option Bool
  poll zero d deadline require_healthy w = (w, none)
  poll (suc fuel) d deadline require_healthy w =
      let later = poll fuel d deadline require_healthy (nap w) in
      if not (ltb (host.jiffies w.usb.device) deadline)
      then (w, some false)
      else if w.chip.disconnected || w.chip.suspended
      then (w, some false)
      else if is_up require_healthy d w
      then (w, some true)
      else later

  unfoldable pub wait_urb_stream_started :
      Direction → ℕ → Bool → World Env Src → World Env Src × Bool
  wait_urb_stream_started d timeout_ms require_healthy w =
      let deadline = host.jiffies w.usb.device + host.msecs_to_jiffies timeout_ms in
      let (w1, seen) = poll (rounds timeout_ms) d deadline require_healthy w in (w1, confirmed seen)

  unfoldable pub report_xruns : World Env Src → World Env Src
  report_xruns w = record w {
    chip = record (w.chip) {
      playback = report_xrun host.core w.chip.playback;
      capture = report_xrun host.core w.chip.capture;
    };
  }

  unfoldable pub restart : World Env Src → World Env Src
  restart w = (start_urbs host true (stop_urbs host w)).0

  -- A reset that was granted, and the look at the stream behind it.
  unfoldable pub reset_and_look : Direction → World Env Src → World Env Src × Option Errno
  reset_and_look d w =
      let (w1, failed) = wait_reset_done host (queue_reset w) in
      let (w2, up) = wait_urb_stream_started d (host.grace_ms w1.usb.device) false w1 in
      unless_failed failed (λ e. (w1, some e)) (unless_failed w1.chip.reset_rc (λ _. w1) w2, none)

  -- The full reset, where the budget grants it.
  unfoldable pub escalate : Direction → World Env Src → World Env Src × Option Errno
  escalate d w =
      let (chip, granted) = recovery_budget_take (host.clock w.usb.device) w.chip in
      let counted = record w { chip = chip } in
      let reset = reset_and_look d counted in
      if w.chip.disconnected || w.chip.suspended
      then (w, some enodev)
      else if granted
      then reset
      else (counted, none)

  -- From the restart of the rings on.
  unfoldable pub climb : Direction → World Env Src → World Env Src × Option Errno
  climb d w =
      let restarted = restart w in
      let (w1, up) =
        wait_urb_stream_started d (host.grace_ms restarted.usb.device) true restarted in
      let escalated = escalate d w1 in if up then (w1, none) else escalated

  unfoldable pub run_recovery_ladder : Direction → World Env Src → World Env Src × Option Errno
  run_recovery_ladder d w =
      let told = report_xruns w in
      let climbed = climb d told in
      if is_alive d told
      then (told, none)
      else if told.chip.disconnected || told.chip.suspended || told.chip.resetting
      then (told, none)
      else climbed

  unfoldable pub recover_urb_stream : Direction → World Env Src → World Env Src × Option Errno
  recover_urb_stream d w =
      let (w1, result) = run_recovery_ladder d (set_in_progress true w) in
      if w.chip.disconnected
      then (w, some enodev)
      else if is_alive d w
      then (w, none)
      else if w.chip.recovery_in_progress
      then (w, none)
      else (set_in_progress false w1, result)
