-- ===== src/Driver/Ring.antt =====
-- The URB rings as a whole: `jockey3_stop_urbs`, `jockey3_start_urbs` and
-- `jockey3_watchdog_clear_stall` (jockey3.c).
pub mod Quiet
pub mod Submits
pub mod Depth
use alsa_jockey.Prelude.{
  ℕ, zero, suc, ◌+◌, ◌-◌, ◌*◌, Bool, true, false, if◌then◌else◌, Option, none, some, List, [], ◌∷◌,
  ◌++◌,
}
use alsa_jockey.Errno.{Errno, enodev, eshutdown}
use alsa_jockey.Stream.State.{
  UrbStream, Direction, playback_direction, capture_direction, get_pcm_urb_stream,
  set_pcm_urb_stream, pkt_size,
}
use alsa_jockey.Recovery.Watchdog.{watchdog_arm}
use alsa_jockey.Driver.World.{
  pcm_urb, midi_in_urb, Note, stall_restarted, Host, World, set_env, urbs_done, midi_in_done,
}

abbrev pub n_urbs : ℕ
n_urbs = 8

-- The first error of a sequence of submits.
abbrev pub first_of : Option Errno → Option Errno → Option Errno
first_of none later = later
first_of (some e) later = some e

unfoldable pub drop_liveness : UrbStream → UrbStream
drop_liveness s = record s {
  last_callback_time = 0;
  first_callback_time = 0;
  completions_since_start = 0;
  urbs_started_time = 0;
}

-- What start_urbs does to a direction under its lock, and the stamp ahead of the submits.
unfoldable pub open_fence : UrbStream → UrbStream
open_fence s = record s { stopping = false; consec_errors = 0 }

unfoldable pub stamp_start : ℕ → UrbStream → UrbStream
stamp_start now s = record s {
  first_callback_time = 0;
  completions_since_start = 0;
  urbs_started_time = now;
}

-- The line that ends a stall which was reported.
unfoldable pub note_restart : Direction → Bool → List Note → List Note
note_restart d reported notes = if reported then notes ++ (stall_restarted d ∷ []) else notes

-- A URB that the usb core refuses is counted off again.
unfoldable pub count_off : Option Errno → UrbStream → UrbStream
count_off none s = s
count_off (some e) s = record s { urbs_in_flight = s.urbs_in_flight - 1 }

-- The delay of a run that is queued already stays.
unfoldable pub queued_delay : Option ℕ → ℕ → ℕ
queued_delay none delay_ms = delay_ms
queued_delay (some queued) delay_ms = queued

module _ {Env Src : Type 0} where
  unfoldable pub watchdog_disarm : World Env Src → World Env Src
  watchdog_disarm w = record w { watchdog_due = none }

  unfoldable pub fence : World Env Src → World Env Src
  fence w = record w {
    chip = record (w.chip) {
      playback = record (w.chip.playback) { stopping = true };
      capture = record (w.chip.capture) { stopping = true };
      midi_stopping = true;
    };
  }

  unfoldable pub watchdog_clear_stall : Direction → World Env Src → World Env Src
  watchdog_clear_stall d w =
      let s = get_pcm_urb_stream w.chip d in
      record w {
        chip = set_pcm_urb_stream w.chip d (record s { stall_reported = false });
        notes = note_restart d s.stall_reported w.notes;
      }

  unfoldable pub open_fences : World Env Src → World Env Src
  open_fences w = record w {
    chip = record (w.chip) {
      playback = open_fence w.chip.playback;
      capture = open_fence w.chip.capture;
      midi_stopping = false;
      midi_consec_errors = 0;
    };
  }

module _ {Env Src : Type 0} (host : Host Env Src) where
  -- `queue_delayed_work`, which leaves a run that is already queued where it is.
  unfoldable pub queue_watchdog : World Env Src → World Env Src
  queue_watchdog w =
      let delay_ms = watchdog_arm (host.clock w.usb.device) (host.grace_ms w.usb.device) w.chip in
      record w { watchdog_due = some (queued_delay w.watchdog_due delay_ms) }

  unfoldable pub kill_urbs : World Env Src → World Env Src
  kill_urbs w =
      let (env, killed) = host.kill w.usb.device in
      let heard = midi_in_done host killed.midi_in (set_env w env) in
      urbs_done host capture_direction killed.of_capture
        (urbs_done host playback_direction killed.of_playback heard)

  unfoldable pub stop_urbs : World Env Src → World Env Src
  stop_urbs w =
      let killed = kill_urbs (fence (watchdog_disarm w)) in
      record killed {
        chip = record (killed.chip) {
          playback = drop_liveness killed.chip.playback;
          capture = drop_liveness killed.chip.capture;
        };
      }

  -- One URB of a ring: counted, and counted off again where the usb core refuses it.
  unfoldable pub submit_pcm_urb : Direction → ℕ → ℕ → World Env Src → World Env Src × Option Errno
  submit_pcm_urb d slot len w =
      let (env, refused) = host.submit w.usb.device (pcm_urb d slot len) in
      let s = get_pcm_urb_stream w.chip d in
      let counted = record s { urbs_in_flight = s.urbs_in_flight + 1 } in
      (
        record (set_env w env) { chip = set_pcm_urb_stream w.chip d (count_off refused counted) },
        refused,
      )

  -- The last `n` slots of both rings, with the first error so far.
  unfoldable pub submit_urbs :
      ℕ → ℕ → ℕ → Option Errno → World Env Src → World Env Src × Option Errno
  submit_urbs zero playback_len capture_len first_err w = (w, first_err)
  submit_urbs (suc n) playback_len capture_len first_err w =
      let (w1, e1) = submit_pcm_urb playback_direction (n_urbs - suc n) playback_len w in
      let (w2, e2) = submit_pcm_urb capture_direction (n_urbs - suc n) capture_len w1 in
      submit_urbs n playback_len capture_len (first_of (first_of first_err e1) e2) w2

  unfoldable pub submit_midi_in : Option Errno → World Env Src → World Env Src × Option Errno
  submit_midi_in first_err w =
      let (env, refused) = host.submit w.usb.device midi_in_urb in
      (set_env w env, first_of first_err refused)

  unfoldable pub stamp : Bool → World Env Src → World Env Src
  stamp warm w = record w {
    chip = record (w.chip) {
      warm_start = warm;
      playback = stamp_start (host.clock w.usb.device) w.chip.playback;
      capture = stamp_start (host.clock w.usb.device) w.chip.capture;
    };
  }

  -- From the fences on: no URB completes before the last one is submitted.
  unfoldable pub run_urbs : Bool → World Env Src → World Env Src × Option Errno
  run_urbs warm w =
      let cleared =
        watchdog_clear_stall capture_direction
          (watchdog_clear_stall playback_direction (open_fences w)) in
      let stamped = stamp warm cleared in
      let (w1, e1) =
        submit_urbs n_urbs (stamped.chip.playback.n_pkts * pkt_size)
          (stamped.chip.capture.n_pkts * pkt_size) none stamped in
      let (w2, e2) = submit_midi_in e1 w1 in (queue_watchdog w2, e2)

  unfoldable pub start_urbs : Bool → World Env Src → World Env Src × Option Errno
  start_urbs warm w =
      if w.chip.disconnected
      then (w, some enodev)
      else if w.chip.suspended
      then (w, some eshutdown)
      else run_urbs warm w
