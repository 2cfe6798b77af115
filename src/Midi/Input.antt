-- ===== src/Midi/Input.antt =====
-- MIDI IN: the completion handler of the interrupt endpoint, `jockey3_midi_in_callback` (jockey3.c),
-- from entry to return.
pub mod Delivery
use alsa_jockey.Prelude.{
  ℕ, zero, suc, ◌+◌, ◌-◌, ◌*◌, ◌/◌, ◌%◌, ◌^◌, ◌≤◌, ◌<◌, ◌≡◌, refl, arith, Bool, true, false, ltb,
  leb, ◌==◌, ◌&&◌, ◌||◌, not, if◌then◌else◌, u32, Option, none, some, List, [], ◌∷◌,
}
use alsa_jockey.Errno.{Errno}
use alsa_jockey.Codec.Memory.{Buffer, store}
use alsa_jockey.Midi.Ports.{Ports}
use alsa_jockey.Stream.State.{max_urb_errors}
use alsa_jockey.Stream.Errors.{urb_check, urb_ok, urb_stopped, urb_error}

-- A completed MIDI IN URB, and what `usb_submit_urb` will answer.
pub record MidiUrb : Type 0 where
  pub status : Option Errno
  pub actual_length : ℕ
  pub transfer_buffer : Buffer
  pub submit_result : Option Errno

-- The ports after the handler; the substream and the bytes that `snd_rawmidi_receive` was given, if
-- it was called; whether the URB was taken.
pub record Heard : Type 0 where
  pub ports : Ports
  pub delivered : Option (ℕ × List ℕ)
  pub submitted : Bool

-- The `n` bytes from `i` on.
unfoldable pub bytes_from : Buffer → ℕ → ℕ → List ℕ
bytes_from buf i zero = []
bytes_from buf i (suc n) = buf i ∷ bytes_from buf (i + 1) n

-- The loop that drops the padding in place: `left` bytes from `i` on are to be looked at, and `n`
-- are kept.
unfoldable pub compact : ℕ → ℕ → ℕ → Buffer → ℕ × Buffer
compact zero i n buf = (n, buf)
compact (suc left) i n buf =
    let kept = ltb (buf i) 0xf0 in
    compact left (i + 1) (if kept then n + 1 else n) (if kept then store buf n (buf i) else buf)

-- The delivery, under midi_lock.
unfoldable pub receive : Ports → ℕ → Buffer → Option (ℕ × List ℕ)
receive p n buf =
    if not (n == 0) && not p.midi_stopping
    then elim (p.midi_in_substream) [ none ↦ none | some sub ↦ some (sub, bytes_from buf 0 n) ]
    else none

-- Whether `usb_submit_urb` takes the URB.
abbrev pub is_taken : Option Errno → Bool
is_taken none = true
is_taken (some _) = false

-- The part behind the status check, with `actual_length` as that leaves it.
unfoldable pub midi_in_completed : ℕ → MidiUrb → Ports → Heard
midi_in_completed actual_length u p =
    let (n, buf) = compact actual_length 0 0 u.transfer_buffer in
    if p.disconnected then record { ports = p; delivered = none; submitted = false } else record {
      ports = p;
      delivered = receive p n buf;
      submitted = not p.midi_stopping && is_taken u.submit_result;
    }

unfoldable pub midi_in_callback : MidiUrb → Ports → Heard
midi_in_callback u p =
    let blamed = record p { midi_consec_errors = u32 (p.midi_consec_errors + 1) } in
    elim (urb_check u.status) [
      | urb_stopped ↦ record { ports = p; delivered = none; submitted = false }
      | urb_error ↦
          if leb max_urb_errors blamed.midi_consec_errors
          then record { ports = blamed; delivered = none; submitted = false }
          else midi_in_completed 0 u blamed
      | urb_ok ↦ midi_in_completed u.actual_length u (record p { midi_consec_errors = 0 })
    ]
