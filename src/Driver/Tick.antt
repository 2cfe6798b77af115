-- ===== src/Driver/Tick.antt =====
-- The watchdog's run (jockey3.c): `jockey3_watchdog_check` and `jockey3_watchdog_work`.
pub mod Pairing
pub mod Claims
use alsa_jockey.Prelude.{
  ℕ, ◌+◌, ◌*◌, Bool, true, false, not, ltb, leb, ◌==◌, ◌&&◌, ◌||◌, if◌then◌else◌, Option, none,
  some,
}
use alsa_jockey.Stream.State.{
  UrbStream, Direction, playback_direction, capture_direction, get_pcm_urb_stream,
  set_pcm_urb_stream, has_substream, nsec_per_msec,
}
use alsa_jockey.Recovery.Clock.{sub64}
use alsa_jockey.Recovery.Watchdog.{watchdog_stall_ms, watchdog_retry_min_ms, watchdog_back_off}
use alsa_jockey.Driver.World.{Note, stall_onset, stall_recovered, Host, World, add_note}
use alsa_jockey.Driver.Ring.{queue_watchdog}
use alsa_jockey.Driver.Ladder.{recover_urb_stream}

-- What the look under the stream's lock leaves: the stream, the line to log, and, unless it
-- returned early, whether the stream is stalled and the threshold that was applied.
pub record Look : Type 0 where
  pub stream : UrbStream
  pub logged : Option Note
  pub found : Option (Bool × ℕ)

-- The time that counts as the last completion, and the threshold.
unfoldable pub baseline : ℕ → ℕ → UrbStream → ℕ × ℕ
baseline now grace_ms s =
    if ltb (sub64 now s.urbs_started_time) (grace_ms * nsec_per_msec)
    then (s.urbs_started_time, grace_ms)
    else (
      if s.last_callback_time == 0 then s.urbs_started_time else s.last_callback_time,
      watchdog_stall_ms,
    )

-- The two branches on the age of the last completion.
unfoldable pub judge : Direction → Bool → ℕ → UrbStream → UrbStream × Option Note
judge d stalled last s =
    if stalled
    then (if s.stall_reported
        then (s, none)
        else (record s { stall_reported = true; stall_since = last }, some (stall_onset d)))
    else if s.stall_reported
    then (record s { stall_reported = false }, some (stall_recovered d))
    else (s, none)

unfoldable pub look : ℕ → ℕ → Direction → UrbStream → Look
look now grace_ms d s =
    let (last, threshold_ms) = baseline now grace_ms s in
    let stalled = ltb (threshold_ms * nsec_per_msec) (sub64 now last) in
    let (judged, logged) = judge d stalled last s in
    if s.stopping
    then record { stream = record s { stall_reported = false }; logged = none; found = none }
    else if s.urbs_started_time == 0
    then record { stream = s; logged = none; found = none }
    else record { stream = judged; logged = logged; found = some (stalled, threshold_ms) }

-- A stream that streams steadily gets its backoff reset once that has lasted for the hold.
unfoldable pub note_steady : ℕ → UrbStream → UrbStream
note_steady now s =
    if s.steady_since == 0
    then record s { steady_since = now }
    else if leb (s.retry_backoff_ms * nsec_per_msec) (sub64 now s.steady_since)
    then record s { retry_backoff_ms = watchdog_retry_min_ms; retry_at = 0 }
    else s

-- Whether the look ends in a ladder, unless it is held off until `retry_at`.
unfoldable pub wants_ladder : ℕ → Direction → Bool → UrbStream → Bool
wants_ladder now playback_direction stalled s = stalled && not (ltb now s.retry_at)
wants_ladder now capture_direction stalled s =
    stalled && has_substream s && not (ltb now s.retry_at)

module _ {Env Src : Type 0} where
  abbrev pub put : Direction → UrbStream → World Env Src → World Env Src
  put d s w = record w { chip = set_pcm_urb_stream w.chip d s }

  unfoldable pub log_line : Option Note → World Env Src → World Env Src
  log_line none w = w
  log_line (some n) w = add_note n w

module _ {Env Src : Type 0} (host : Host Env Src) where
  unfoldable pub back_off_both : World Env Src → World Env Src
  back_off_both w =
      let now = host.clock w.usb.device in
      record w {
        chip = record (w.chip) {
          playback = watchdog_back_off now w.chip.playback;
          capture = watchdog_back_off now w.chip.capture;
        };
      }

  -- Behind the look: the stream is steady, or it is not and may be brought back.
  unfoldable pub act : ℕ → Direction → Bool → ℕ → World Env Src → World Env Src
  act now d stalled threshold_ms w =
      let s = get_pcm_urb_stream w.chip d in
      let unsteady = put d (record s { steady_since = 0 }) w in
      let recovered = back_off_both (recover_urb_stream host d unsteady).0 in
      if not stalled && (threshold_ms == watchdog_stall_ms)
      then put d (note_steady now s) w
      else if wants_ladder now d stalled s
      then recovered
      else unsteady

  unfoldable pub watchdog_check : Direction → World Env Src → World Env Src
  watchdog_check d w =
      let now = host.clock w.usb.device in
      let seen = look now (host.grace_ms w.usb.device) d (get_pcm_urb_stream w.chip d) in
      let looked = log_line seen.logged (put d seen.stream w) in
      if host.attached w.usb.device
      then elim (seen.found) [
        | none ↦ looked
        | some (stalled, threshold_ms) ↦ act now d stalled threshold_ms looked
      ]
      else w

  unfoldable pub watchdog_work : World Env Src → World Env Src
  watchdog_work w =
      let running = record w { watchdog_due = none } in
      let checked =
        if w.chip.resetting
        then running
        else watchdog_check capture_direction (watchdog_check playback_direction running) in
      if w.chip.disconnected || w.chip.suspended then running else queue_watchdog host checked
