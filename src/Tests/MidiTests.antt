-- ===== src/Tests/MidiTests.antt =====
-- The MIDI parts (ploytec_midi.c, jockey3.c) at concrete byte streams.
use alsa_jockey.Prelude.{
  ℕ, ◌+◌, ◌*◌, ◌/◌, ◌%◌, ◌≤◌, ◌≡◌, ltb, not, ◌&&◌, refl, arith, true, false, List, [], ◌∷◌, ◌++◌,
  Option, none, some,
}
use alsa_jockey.Midi.RunningStatus.{fresh, expand, expand_all, take_queued, feed}
use alsa_jockey.Midi.Receiver.{hear_all, listening, hear-expanded}
use alsa_jockey.Midi.Out.{MidiOut, set_current_rate, slots}
use alsa_jockey.Midi.Out.Rate.{count_sent, set_current_rate-slots_bounded}
use alsa_jockey.Midi.Out.Order.{NoneIdle, sent_bytes, IsFifo, outstanding, slots-outstanding}
use alsa_jockey.Errno.{eproto}
use alsa_jockey.Codec.Memory.{Buffer, IsBytes}
use alsa_jockey.Stream.State.{max_urb_errors}
use alsa_jockey.Stream.Errors.{urb_check, urb_ok, urb_error}
use alsa_jockey.Midi.Input.{MidiUrb, is_taken, bytes_from, midi_in_callback}
use alsa_jockey.Midi.Input.Delivery.{
  message_bytes, deliverable, midi_in_callback-delivers, midi_in_callback-fails,
}
use alsa_jockey.Midi.Ports.{Ports}

-- Two notes under one status.
abbrev two_notes : List ℕ
two_notes = 0x90 ∷ 60 ∷ 100 ∷ 62 ∷ 100 ∷ []

hear-expanded_example :
    hear_all false listening (expand_all fresh two_notes) ≡ hear_all true listening two_notes
hear-expanded_example = hear-expanded two_notes

-- A substream that holds a list of bytes.
abbrev take_first : List ℕ → Option (ℕ × List ℕ)
take_first [] = none
take_first (b ∷ bs) = some (b, bs)

abbrev all_pending : List ℕ → List ℕ
all_pending bs = bs

take_first-IsFifo : IsFifo take_first all_pending
take_first-IsFifo = record { empty = empty; first = first }
  where
    empty : (src : List ℕ) → take_first src ≡ none → src ≡ []
    empty [] e = refl
    empty (b ∷ bs) e = grind arith

    first :
        (src : List ℕ) (b : ℕ) (src' : List ℕ) → take_first src ≡ some (b, src') → src ≡ b ∷ src'
    first [] b src' e = grind arith
    first (x ∷ xs) b src' e = grind arith

abbrev playing_notes : MidiOut (List ℕ)
playing_notes = record {
  current_rate = 44100;
  midi_out_acc = 0;
  midi_rate_divisor = 4410;
  midi_state = fresh;
  midi_out_substream = some two_notes;
}

playing_notes-NoneIdle :
    NoneIdle (outstanding take_first all_pending take_first-IsFifo playing_notes)
unfolding outstanding take_queued expand_all feed expand
playing_notes-NoneIdle =
    (omega arith, (omega arith, (omega arith, (omega arith, (omega arith, (omega arith, tt))))))

slots-outstanding_example :
    sent_bytes (slots take_first 4 playing_notes).1
      ++ outstanding take_first all_pending take_first-IsFifo (slots take_first 4 playing_notes).0
    ≡ outstanding take_first all_pending take_first-IsFifo playing_notes
slots-outstanding_example =
    slots-outstanding take_first all_pending take_first-IsFifo 4 playing_notes
      playing_notes-NoneIdle

set_current_rate-slots_bounded_example :
    count_sent (slots take_first (2 * (44100 / 10)) (set_current_rate playing_notes 44100)).1
    ≤ 2500 * 2
set_current_rate-slots_bounded_example =
    set_current_rate-slots_bounded take_first playing_notes 44100 2 (omega arith) (omega arith)

abbrev both_open : Ports
both_open = record {
  disconnected = false;
  midi_in_substream = some 1;
  midi_out_substream = some 2;
  midi_state = fresh;
  midi_stopping = false;
  midi_consec_errors = 0;
}

-- Bytes from 0xe0 on, so that some are padding.
abbrev padded : Buffer
padded x = (0xe8 + 3 * x) % 256

padded-IsBytes : IsBytes padded
padded-IsBytes x = omega arith

abbrev heard_well : MidiUrb
heard_well = record {
  status = none;
  actual_length = 9;
  transfer_buffer = padded;
  submit_result = none;
}

abbrev heard_badly : MidiUrb
heard_badly = record heard_well { status = some eproto; actual_length = 0 }

heard_well-urb_ok : urb_check heard_well.status ≡ urb_ok
unfolding urb_check
heard_well-urb_ok = refl

heard_badly-urb_error : urb_check heard_badly.status ≡ urb_error
unfolding urb_check
heard_badly-urb_error = refl

midi_in_callback-delivers_example :
    let heard = midi_in_callback heard_well both_open in
    (heard.ports ≡ record both_open { midi_consec_errors = 0 })
    × (heard.delivered ≡ deliverable false (some 1) (message_bytes (bytes_from padded 0 9)))
    × (heard.submitted ≡ (not false && is_taken none))
midi_in_callback-delivers_example =
    midi_in_callback-delivers heard_well both_open padded-IsBytes heard_well-urb_ok refl

midi_in_callback-fails_example :
    let heard = midi_in_callback heard_badly both_open in
    (heard.ports ≡ record both_open { midi_consec_errors = 0 + 1 })
    × (heard.delivered ≡ none)
    × (heard.submitted ≡ (ltb (0 + 1) max_urb_errors && not false && is_taken none))
midi_in_callback-fails_example =
    midi_in_callback-fails heard_badly both_open padded-IsBytes heard_badly-urb_error refl
      (omega arith)
