-- ===== src/Driver/World.antt =====
-- The state that the driver's operations share (jockey3.c), and what lies outside of the driver: the
-- usb core with the device, the clock, the ALSA core and the other threads' events while one sleeps.
use alsa_jockey.Prelude.{ℕ, Bool, true, Option, none, some, List, [], ◌∷◌, ◌++◌}
use alsa_jockey.Errno.{Errno}
use alsa_jockey.Codec.Batch.{Variant, CodecState}
use alsa_jockey.Midi.Out.{MidiOut}
use alsa_jockey.Midi.Ports.{Ports}
use alsa_jockey.Midi.Input.{MidiUrb, midi_in_callback}
use alsa_jockey.Midi.RunningStatus.{fresh}
use alsa_jockey.Proto.Session.{Transfer, Reply, Session}
use alsa_jockey.Stream.State.{Chip, Direction, playback_direction, capture_direction}
use alsa_jockey.Stream.Errors.{AlsaCore}
use alsa_jockey.Stream.Capture.{Completion, capture_callback}
use alsa_jockey.Stream.Playback.{playback_callback}

-- A URB that is submitted: its slot in the ring and its transfer_buffer_length.
pub data Urb : Type 0 where
  pcm_urb : Direction → ℕ → ℕ → Urb
  midi_in_urb : Urb

-- What the watchdog and a restart log about a stall, and that a reset was asked for.
pub data Note : Type 0 where
  stall_onset : Direction → Note
  stall_recovered : Direction → Note
  stall_restarted : Direction → Note
  reset_asked : Note

-- The URBs that the three kills of a stop hand back to their handlers.
pub record Killed : Type 0 where
  pub midi_in : Option MidiUrb
  pub of_playback : List Completion
  pub of_capture : List Completion

-- What can happen while a thread sleeps: a URB completes; the device is marked as disconnected, or
-- as suspended.
pub data Event : Type 0 where
  urb_completes : Direction → Completion → Event
  goes_away : Event
  goes_to_sleep : Event

-- How a wait for a reset ends: the reset runs, the waiter is released by the disconnect, or one
-- second passes.
pub data Wait : Type 0 where
  reset_runs released timed_out : Wait

-- What is not the driver's own. `Env` is the state of all of it.
pub record Host (Env Src : Type 0) : Type 0 where
  pub transmit : Src → Option (ℕ × Src)
  pub variant : Variant
  pub codec : CodecState
  pub core : AlsaCore
  pub answer : Env → Transfer → Env × Reply
  -- `ktime_get_mono_fast_ns`.
  pub clock : Env → ℕ
  -- `jiffies`, with no wrap, and `msecs_to_jiffies`.
  pub jiffies : Env → ℕ
  pub msecs_to_jiffies : ℕ → ℕ
  -- `usb_submit_urb`.
  pub submit : Env → Urb → Env × Option Errno
  -- `usb_kill_urb` of the MIDI IN URB and `usb_kill_anchored_urbs` of both anchors.
  pub kill : Env → Env × Killed
  -- `usleep_range(500, 2000)`.
  pub nap : Env → Env × List Event
  -- `jockey3_start_grace_ms`: the module parameter may change at any time.
  pub grace_ms : Env → ℕ
  -- `chip->dev->state != USB_STATE_NOTATTACHED`.
  pub attached : Env → Bool
  -- How the wait for `reset_done` ends, and whether the one for another thread's ladder ends in time.
  pub reset_wait : Env → Wait
  pub in_time : Env → Bool
  -- Whether `snd_pcm_suspend_all` calls .trigger on the direction.
  pub suspends : Env → Direction → Bool
  -- `snd_pcm_hw_constraint_integer` of the periods and `snd_pcm_hw_constraint_single` of the rate.
  pub constrain_periods : Env → Option Errno
  pub constrain_rate : Env → Option Errno
  pub ilog2 : ℕ → ℕ
  -- `usb_lock_device_for_reset`; the reset of the port, and whether the usb core calls post_reset
  -- after it.
  pub lock_for_reset : Env → Env × Option Errno
  pub reset_port : Env → Env × Option Errno × Bool

-- The chip, the MIDI OUT side, the device behind endpoint 0 with the calls made, the delay of the
-- watchdog's next run if one is queued, whether reset_work is scheduled, and the log.
pub record World (Env Src : Type 0) : Type 0 where
  pub chip : Chip
  pub midi : MidiOut Src
  pub usb : Session Env
  pub watchdog_due : Option ℕ
  pub reset_scheduled : Bool
  pub notes : List Note

-- An early return on an error, and what follows where there is none.
unfoldable pub unless_failed : {A : Type 0} → Option Errno → (Errno → A) → A → A
unless_failed none early next = next
unless_failed (some e) early next = early e

module _ {Env Src : Type 0} where
  abbrev pub set_env : World Env Src → Env → World Env Src
  set_env w env = record w { usb = record (w.usb) { device = env } }

  abbrev pub add_note : Note → World Env Src → World Env Src
  add_note n w = record w { notes = w.notes ++ (n ∷ []) }

module _ {Env Src : Type 0} (host : Host Env Src) where
  -- The handler of a PCM URB runs to its end.
  unfoldable pub urb_done : Direction → Completion → World Env Src → World Env Src
  urb_done playback_direction c w =
      let sent =
        playback_callback host.transmit host.variant host.codec host.core w.chip.disconnected c
          w.midi w.chip.playback in
      record w { chip = record (w.chip) { playback = sent.done.stream }; midi = sent.midi }
  urb_done capture_direction c w =
      let done =
        capture_callback host.variant host.codec host.core w.chip.disconnected c w.chip.capture in
      record w { chip = record (w.chip) { capture = done.stream } }

  unfoldable pub urbs_done : Direction → List Completion → World Env Src → World Env Src
  urbs_done d [] w = w
  urbs_done d (c ∷ cs) w = urbs_done d cs (urb_done d c w)

  -- The handler of the MIDI IN URB under the stop fence, where it delivers nothing.
  unfoldable pub midi_in_done : Option MidiUrb → World Env Src → World Env Src
  midi_in_done none w = w
  midi_in_done (some u) w =
      let ports : Ports = record {
        disconnected = w.chip.disconnected;
        midi_in_substream = none;
        midi_out_substream = none;
        midi_state = fresh;
        midi_stopping = w.chip.midi_stopping;
        midi_consec_errors = w.chip.midi_consec_errors;
      } in
      let heard = midi_in_callback u ports in
      record w { chip = record (w.chip) { midi_consec_errors = heard.ports.midi_consec_errors } }

  unfoldable pub happens : Event → World Env Src → World Env Src
  happens (urb_completes d c) w = urb_done d c w
  happens goes_away w = record w { chip = record (w.chip) { disconnected = true } }
  happens goes_to_sleep w = record w { chip = record (w.chip) { suspended = true } }

  unfoldable pub all_happen : List Event → World Env Src → World Env Src
  all_happen [] w = w
  all_happen (e ∷ es) w = all_happen es (happens e w)
