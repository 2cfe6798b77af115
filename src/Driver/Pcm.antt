-- ===== src/Driver/Pcm.antt =====
-- The PCM operations (jockey3.c): `jockey3_pcm_open`, `_close`, `_hw_params`, `_hw_free`, `_prepare`,
-- `_trigger` and the rate interlock between the directions.
pub mod Interlock
pub mod Granted
pub mod Held
pub mod Ready
use alsa_jockey.Prelude.{
  ℕ, zero, suc, ◌+◌, ◌^◌, Bool, true, false, not, ltb, ◌==◌, ◌&&◌, ◌||◌, if◌then◌else◌, Option,
  none, some,
}
use alsa_jockey.Errno.{Errno, enodev, ebusy, einval, eagain}
use alsa_jockey.Proto.Session.{Result, err, ok}
use alsa_jockey.Stream.State.{
  Substream, UrbStream, Chip, Direction, playback_direction, capture_direction, get_pcm_urb_stream,
  set_pcm_urb_stream, has_substream,
}
use alsa_jockey.Stream.Sizing.{pcm_set_n, max_n}
use alsa_jockey.Driver.World.{Host, World, unless_failed}
use alsa_jockey.Driver.Ring.{stop_urbs, start_urbs}
use alsa_jockey.Driver.Device.{jockey3_set_rate, publish_rate}
use alsa_jockey.Driver.Reset.{wait_for_reset_completion}
use alsa_jockey.Driver.Ladder.{is_alive, wait_urb_stream_started, recover_urb_stream}

-- `SNDRV_PCM_TRIGGER_*`.
pub data Command : Type 0 where
  start_command stop_command suspend_command other_command : Command

abbrev pub one_if_true : Bool → ℕ
one_if_true true = 1
one_if_true false = 0

module _ {Env Src : Type 0} where
  abbrev pub update : Direction → (UrbStream → UrbStream) → World Env Src → World Env Src
  update d f w = record w { chip = set_pcm_urb_stream w.chip d (f (get_pcm_urb_stream w.chip d)) }

  unfoldable pub set_rate_committed : Direction → Bool → World Env Src → World Env Src
  set_rate_committed d committed w = update d (λ s. record s { rate_committed = committed }) w

  unfoldable pub rate_committed_streams : World Env Src → ℕ
  rate_committed_streams w =
      one_if_true w.chip.capture.rate_committed + one_if_true w.chip.playback.rate_committed

  unfoldable pub pcm_hw_free : Direction → World Env Src → World Env Src
  pcm_hw_free d w = set_rate_committed d false w

  unfoldable pub pcm_trigger : Direction → Command → World Env Src → World Env Src × Option Errno
  pcm_trigger d start_command w =
      if w.chip.disconnected
      then (w, some enodev)
      else (update d (λ s. record s { running = true }) w, none)
  pcm_trigger d stop_command w = (update d (λ s. record s { running = false }) w, none)
  pcm_trigger d suspend_command w = (update d (λ s. record s { running = false }) w, none)
  pcm_trigger d other_command w = (w, some einval)

  -- The end of .prepare.
  unfoldable pub rewind : Direction → World Env Src → World Env Src
  rewind d w = update d (λ s. record s { dma_off = 0; period_off = 0 }) w

module _ {Env Src : Type 0} (host : Host Env Src) where
  -- The result says to which rate the new stream is pinned, if to one.
  unfoldable pub pcm_open :
      Direction → Substream → World Env Src → World Env Src × Result (Option ℕ)
  pcm_open d sub w =
      let opened = update d (λ s. record s { substream = some sub }) w in
      let pinned = ltb 0 (rate_committed_streams w) in
      if w.chip.disconnected then (w, err enodev) else elim (host.constrain_periods w.usb.device) [
        | some e ↦ (w, err e)
        | none ↦
            if pinned
            then elim (host.constrain_rate w.usb.device) [
              | some e ↦ (w, err e)
              | none ↦ (opened, ok (some w.chip.current_rate))
            ]
            else (opened, ok none)
      ]

  unfoldable pub pcm_close : Direction → World Env Src → World Env Src
  pcm_close d w =
      update d
        (λ s. record s {
          substream = none;
          running = false;
          rate_committed = false;
          n_shift = host.ilog2 (max_n d);
          n_pkts = max_n d;
        })
        w

  -- The end of a rate change that the other direction does not forbid.
  unfoldable pub reprogram : Direction → ℕ → World Env Src → World Env Src × Option Errno
  reprogram d rate w =
      let (w1, failed) = jockey3_set_rate host rate false (stop_urbs host w) in
      let committed = set_rate_committed d true (publish_rate rate w1) in
      unless_failed failed (λ e. ((start_urbs host false w1).0, some e))
        ((start_urbs host false committed).0, none)

  -- Besides the result, `changed`.
  unfoldable pub pcm_change_rate :
      Direction → ℕ → World Env Src → World Env Src × Option Errno × Bool
  pcm_change_rate d rate w =
      let dropped = set_rate_committed d false w in
      let (w1, failed) = reprogram d rate dropped in
      if w.chip.disconnected
      then (w, some enodev, false)
      else if w.chip.current_rate == rate
      then (set_rate_committed d true dropped, none, false)
      else if ltb 0 (rate_committed_streams dropped)
      then (dropped, some ebusy, true)
      else (w1, failed, true)

  unfoldable pub recover_if : Bool → Direction → World Env Src → World Env Src × Option Errno
  recover_if wanted d w =
      let recovered = recover_urb_stream host d w in if wanted then recovered else (w, none)

  -- Behind a rate change: both directions are waited for, and brought back where that matters.
  unfoldable pub confirm_streams : World Env Src → World Env Src × Option Errno
  confirm_streams w =
      let grace = host.grace_ms w.usb.device in
      let (w1, playback_alive) = wait_urb_stream_started host playback_direction grace false w in
      let (w2, capture_alive) = wait_urb_stream_started host capture_direction grace false w1 in
      let capture_open = has_substream w2.chip.capture in
      let (w3, failed) = recover_if (not playback_alive) playback_direction w2 in
      let recovered = recover_if (not capture_alive && capture_open) capture_direction w3 in
      unless_failed failed (λ e. (w3, some e)) recovered

  unfoldable pub set_n : Direction → ℕ → World Env Src → World Env Src
  set_n d period_bytes w = record w { chip = pcm_set_n host.ilog2 d period_bytes w.chip }

  -- Behind the wait for a reset in flight.
  unfoldable pub apply_params : Direction → ℕ → ℕ → World Env Src → World Env Src × Option Errno
  apply_params d rate period_bytes w =
      let (w1, failed, changed) = pcm_change_rate d rate (set_n d period_bytes w) in
      let confirmed = confirm_streams w1 in
      unless_failed failed (λ e. (w1, some e)) (if changed then confirmed else (w1, none))

  unfoldable pub pcm_hw_params : Direction → ℕ → ℕ → World Env Src → World Env Src × Option Errno
  pcm_hw_params d rate period_bytes w =
      let (w1, failed) = wait_for_reset_completion host w in
      let applied = apply_params d rate period_bytes w1 in
      if w.chip.disconnected
      then (w, some enodev)
      else unless_failed failed (λ e. (w1, some e)) applied

  -- The wait for another thread's ladder, and the rewinding.
  unfoldable pub finish_prepare : Direction → World Env Src → World Env Src × Option Errno
  finish_prepare d w =
      let ended = record w { chip = record (w.chip) { recovery_in_progress = false } } in
      let rewound = if w.chip.disconnected then (ended, some enodev) else (rewind d ended, none) in
      if not w.chip.recovery_in_progress
      then rewound
      else if host.in_time w.usb.device
      then rewound
      else (w, some eagain)

  -- Behind the wait for a reset in flight.
  unfoldable pub revive_and_rewind : Direction → World Env Src → World Env Src × Option Errno
  revive_and_rewind d w =
      let (w1, up) = wait_urb_stream_started host d (host.grace_ms w.usb.device) false w in
      let (w2, failed) = recover_urb_stream host d w1 in
      let rewound = finish_prepare d w in
      let rewound_waited = finish_prepare d w1 in
      let rewound_revived = finish_prepare d w2 in
      if w.chip.disconnected
      then (w, some enodev)
      else if is_alive host d w
      then rewound
      else if up
      then rewound_waited
      else unless_failed failed (λ e. (w2, some e)) rewound_revived

  unfoldable pub pcm_prepare : Direction → World Env Src → World Env Src × Option Errno
  pcm_prepare d w =
      let (w1, failed) = wait_for_reset_completion host w in
      let revived = revive_and_rewind d w1 in
      if w.chip.disconnected
      then (w, some enodev)
      else unless_failed failed (λ e. (w1, some e)) revived
