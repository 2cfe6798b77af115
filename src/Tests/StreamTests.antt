-- ===== src/Tests/StreamTests.antt =====
-- The completion handlers (jockey3.c) at concrete URBs.
use alsa_jockey.Prelude.{
  ℕ, ◌+◌, ◌*◌, ◌-◌, ◌/◌, ◌%◌, ◌^◌, ◌≤◌, ◌<◌, ◌≡◌, refl, arith, true, false, Option, none, some,
}
use alsa_jockey.Errno.{eproto}
use alsa_jockey.Codec.Memory.{Buffer, IsBytes, advance}
use alsa_jockey.Codec.Reference.{wire_byte}
use alsa_jockey.Codec.Batch.{portable, CodecState, playback_frames}
use alsa_jockey.Midi.RunningStatus.{fresh}
use alsa_jockey.Midi.Out.{MidiOut, slots}
use alsa_jockey.Stream.State.{UrbStream, Runtime, max_urb_errors, pkt_size}
use alsa_jockey.Stream.Packet.{dma_of}
use alsa_jockey.Stream.Packet.Out.{IsPlaying}
use alsa_jockey.Stream.Errors.{urb_check, urb_ok, AlsaCore}
use alsa_jockey.Stream.Packet.In.{IsCapturing}
use alsa_jockey.Stream.Capture.{Completion, take_packets, capture_callback}
use alsa_jockey.Stream.Capture.Audio.{IsTaken, take_packets_lem}
use alsa_jockey.Stream.Handler.{one_if}
use alsa_jockey.Stream.Capture.Callback.{capture_callback-balance, capture_callback-halts}
use alsa_jockey.Stream.Playback.{give_packets, playback_callback}
use alsa_jockey.Stream.Playback.Audio.{give_packets_lem}
use alsa_jockey.Stream.Playback.Given.{IsLive}
use alsa_jockey.Stream.Playback.Layout.{packet_byte, entry_at, playback_callback-layout}

abbrev pub codec : CodecState
codec = record {
  initialized = true;
  bit_spread_64 = λ x. 0;
  bit_spread_32 = record { high = λ x. 0; low = λ x. 0 };
}

abbrev pub samples : Buffer
samples x = (37 * x + 11) % 256

pub samples-IsBytes : IsBytes samples
samples-IsBytes x = omega arith

-- A ring of 24 frames, in periods of 12.
abbrev pub runtime : Runtime
runtime = record { dma_area = some samples; buffer_bytes = 24 * 12; channels = 4; period_size = 12 }

-- Playing, at frame 20 of the ring.
abbrev pub playing : UrbStream
playing = record {
  substream = some (record { runtime = some runtime });
  urbs_in_flight = 8;
  last_callback_time = 0;
  first_callback_time = 0;
  completions_since_start = 0;
  urbs_started_time = 1;
  dma_off = 20 * 12;
  period_off = 8 * 12;
  running = true;
  rate_committed = true;
  callbacks_active = 0;
  stopping = false;
  consec_errors = 0;
  stall_reported = false;
  stall_since = 0;
  retry_at = 0;
  retry_backoff_ms = 500;
  steady_since = 0;
  n_shift = 1;
  n_pkts = 2;
}

pub playing-IsPlaying : IsPlaying playing runtime samples 24 20
unfolding dma_of
playing-IsPlaying = record {
  opened = refl;
  four = refl;
  whole = refl;
  some_frames = omega arith;
  fits = omega arith;
  position = refl;
  in_ring = omega arith;
  period_fits = omega arith;
  period_offset = omega arith;
}

abbrev silence : Buffer
silence x = 0

give_packets_example :
    let (s', out, elapsed) = give_packets portable codec 2 playing silence false in
    IsPlaying s' runtime samples 24 ((20 + 2 * playback_frames) % 24)
    × ((i y : ℕ)
        → i < 2
        → y < 480
        → out (i * pkt_size + y)
          ≡ wire_byte (advance samples ((20 + i * playback_frames + y / 48) % 24 * 12)) (y % 48))
give_packets_example =
    give_packets_lem portable codec tt runtime samples 24 samples-IsBytes (omega arith) 2 playing
      silence 20 false playing-IsPlaying

abbrev pub core : AlsaCore
core = record { after_period = λ s. s.running; after_xrun = λ s. false }

-- A capture ring of 24 frames, in periods of 16.
abbrev pub capture_runtime : Runtime
capture_runtime = record {
  dma_area = some samples;
  buffer_bytes = 24 * 18;
  channels = 6;
  period_size = 16;
}

-- Capturing, at frame 20 of the ring.
abbrev pub capturing : UrbStream
capturing = record playing {
  substream = some (record { runtime = some capture_runtime });
  dma_off = 20 * 18;
  period_off = 4 * 18;
}

pub capturing-IsCapturing : IsCapturing capturing capture_runtime samples 24 20
unfolding dma_of
capturing-IsCapturing = record {
  opened = refl;
  six = refl;
  whole = refl;
  room = omega arith;
  fits = omega arith;
  position = refl;
  in_ring = omega arith;
  period_fits = omega arith;
  period_offset = omega arith;
}

take_packets_example :
    IsTaken 2 samples samples 24 20 capture_runtime capturing false
      (take_packets portable codec core 2 samples capturing false)
take_packets_example =
    take_packets_lem portable codec core 24 2 capturing capture_runtime samples samples 20 false
      samples-IsBytes capturing-IsCapturing (omega arith) (omega arith)

-- Two packets that came well, and a URB that failed on the bus.
abbrev pub came_well : Completion
came_well = record {
  status = none;
  actual_length = 1024;
  transfer_buffer = samples;
  now = 5000000000;
  submit_result = none;
}

abbrev came_badly : Completion
came_badly = record came_well { status = some eproto; actual_length = 0 }

capture_callback-balance_example :
    let d = capture_callback portable codec core false came_well playing in
    (d.stream.urbs_in_flight ≡ 8 - 1 + one_if d.submitted) × (d.stream.callbacks_active ≡ 0)
capture_callback-balance_example =
    capture_callback-balance portable codec core false came_well playing

abbrev given_up : UrbStream
given_up = record playing { consec_errors = 8 }

capture_callback-halts_example :
    let d = capture_callback portable codec core false came_badly given_up in
    (false ≡ true → d.submitted ≡ none)
    × (false ≡ true → d.submitted ≡ none)
    × (max_urb_errors ≤ 8
        → 8 + 1 < 2 ^ 32
        → (d.submitted ≡ none) × (max_urb_errors ≤ d.stream.consec_errors))
capture_callback-halts_example =
    capture_callback-halts portable codec core false came_badly given_up

came_well-urb_ok : urb_check came_well.status ≡ urb_ok
unfolding urb_check
came_well-urb_ok = refl

abbrev nothing_to_send : ℕ → Option (ℕ × ℕ)
nothing_to_send src = none

abbrev midi_closed : MidiOut ℕ
midi_closed = record {
  current_rate = 44100;
  midi_out_acc = 0;
  midi_rate_divisor = 4410;
  midi_state = fresh;
  midi_out_substream = none;
}

playback_callback-layout_example :
    let sent =
      playback_callback nothing_to_send portable codec core false came_well midi_closed playing in
    let (midi, slot_bytes) = slots nothing_to_send 2 midi_closed in
    (sent.midi ≡ midi)
    × (IsLive playing
        → IsPlaying playing runtime samples 24 20
        → (i y : ℕ) → i < 2
        → y < pkt_size
        → sent.out (i * pkt_size + y)
          ≡ packet_byte
              (entry_at slot_bytes i)
              (wire_byte (advance samples ((20 + i * playback_frames + y / 48) % 24 * 12)) (y % 48))
              y)
    × (true ≡ false
        → (i y : ℕ) → i < 2
        → y < pkt_size
        → sent.out (i * pkt_size + y) ≡ packet_byte (entry_at slot_bytes i) 0 y)
    × (false ≡ false
        → 0 < max_urb_errors
        → came_well.submit_result ≡ none
        → sent.done.submitted ≡ some (2 * pkt_size))
playback_callback-layout_example =
    playback_callback-layout nothing_to_send portable codec core came_well midi_closed playing
      runtime samples 24 20 tt samples-IsBytes (omega arith) came_well-urb_ok
