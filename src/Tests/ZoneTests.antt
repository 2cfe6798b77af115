-- ===== src/Tests/ZoneTests.antt =====
-- The tables, the pointer and the safe zone (jockey3.c) at concrete streams.
use native.Mathlib.Nat.{mul-div_cancel}
use alsa_jockey.Prelude.{
  ℕ, ◌+◌, ◌*◌, ◌/◌, ◌%◌, ◌≡◌, refl, arith, true, false, List, [], ◌∷◌, none, some,
}
use alsa_jockey.Codec.Batch.{portable, capture_frames, playback_frames}
use alsa_jockey.Stream.State.{
  Runtime, Chip, playback_direction, capture_direction, get_pcm_urb_stream,
}
use alsa_jockey.Stream.Packet.{dma_of}
use alsa_jockey.Stream.Capture.{take_packets}
use alsa_jockey.Stream.Playback.{give_packets}
use alsa_jockey.Stream.Sizing.{pcm_set_n}
use alsa_jockey.Stream.Hardware.{pcm_hw, pcm_pointer, Params, period_bytes, IsAllowed}
use alsa_jockey.Stream.Hardware.Fits.{Fits, rewound, pcm_set_n-Fits}
use alsa_jockey.Stream.Hardware.Pointer.{IsBytesToFrames, pcm_pointer-moves}
use alsa_jockey.Stream.Zone.{
  Zone, Turn, captures, finishes, passes, notes, counts_off, reports, reported, turns,
  pcm_sync_stop,
}
use alsa_jockey.Stream.Zone.Drained.{pcm_sync_stop-safe, pcm_sync_stop-drains}
use alsa_jockey.Tests.StreamTests.{
  codec, core, samples, samples-IsBytes, runtime, playing, playing-IsPlaying, capture_runtime,
  capturing, capturing-IsCapturing, came_well,
}
use alsa_jockey.Tests.RecoveryTests.{chip, ilog2, ilog2-IsIlog2}

-- Two periods of 64 frames at 44.1 kHz.
abbrev asked : Params
asked = record { rate = 44100; channels = 4; period_size = 64; periods = 2 }

abbrev granted : Runtime
granted = record { dma_area = some samples; buffer_bytes = 2 * 768; channels = 4; period_size = 64 }

asked-IsAllowed : IsAllowed (pcm_hw playback_direction) asked
unfolding pcm_hw
asked-IsAllowed = record {
  rate_listed = refl;
  channels_low = omega arith;
  channels_high = omega arith;
  period_low = omega arith;
  period_high = omega arith;
  periods_low = omega arith;
  periods_high = omega arith;
  buffer_high = omega arith;
}

abbrev opened : Chip
opened = record chip {
  playback = record playing { substream = some (record { runtime = some granted }) };
}

asked-dma_of :
    dma_of (
      rewound (
        get_pcm_urb_stream
          (pcm_set_n ilog2 playback_direction (period_bytes asked) opened)
          playback_direction))
    ≡ some (granted, samples)
unfolding dma_of pcm_set_n
asked-dma_of = refl

pcm_set_n-Fits_example :
    Fits playback_direction
      (rewound
        (get_pcm_urb_stream (pcm_set_n ilog2 playback_direction 768 opened) playback_direction))
      granted
      samples
      (64 * 2)
pcm_set_n-Fits_example =
    pcm_set_n-Fits ilog2 ilog2-IsIlog2 asked opened granted samples
      (record { as_wide = refl; one_period = refl; whole_buffer = refl }) playback_direction
      asked-IsAllowed asked-dma_of

abbrev both : Chip
both = record chip { playback = playing; capture = capturing }

abbrev bytes_to_frames : Runtime → ℕ → ℕ
bytes_to_frames r bytes = bytes / (r.channels * 3)

bytes_to_frames_lem : IsBytesToFrames bytes_to_frames
bytes_to_frames_lem r frames pos = mul-div_cancel frames (omega (arith, pos))

pcm_pointer-moves_example :
    let taken = record both {
      capture = (take_packets portable codec core 2 samples capturing false).0;
    } in
    let given = record both {
      playback = (give_packets portable codec 2 playing samples false).0;
    } in
    (pcm_pointer bytes_to_frames capture_direction capture_runtime taken
      ≡ (pcm_pointer bytes_to_frames capture_direction capture_runtime both + 2 * capture_frames)
        % 24)
    × (pcm_pointer bytes_to_frames playback_direction runtime given
        ≡ (pcm_pointer bytes_to_frames playback_direction runtime both + 2 * playback_frames) % 24)
pcm_pointer-moves_example =
    pcm_pointer-moves bytes_to_frames bytes_to_frames_lem portable codec core both capture_runtime
      runtime samples samples samples 24 24 20 20 2 tt samples-IsBytes samples-IsBytes
      capturing-IsCapturing playing-IsPlaying (omega arith) (omega arith) (omega arith)

-- Stopped while a completion handler and the report of an xrun are inside.
abbrev stopped : Zone
stopped = record { stream = record capturing { running = false; callbacks_active = 2 }; inside = 2 }

-- A completion that comes too late to join, and the two that leave.
abbrev while_waiting : List Turn
while_waiting =
    notes counts_off
    ∷ captures true came_well
    ∷ finishes false 1024 none
    ∷ passes false 1024 none
    ∷ reported
    ∷ []

abbrev behind : List Turn
behind = reports ∷ captures true came_well ∷ []

drains_lem : (pcm_sync_stop portable codec core while_waiting stopped).1 ≡ true
drains_lem =
    pcm_sync_stop-drains portable codec core while_waiting stopped refl
      (refl, (refl, (refl, (refl, (refl, tt))))) refl (omega arith)

pcm_sync_stop-drains_example : (pcm_sync_stop portable codec core while_waiting stopped).1 ≡ true
pcm_sync_stop-drains_example =
    pcm_sync_stop-drains portable codec core while_waiting stopped refl
      (refl, (refl, (refl, (refl, (refl, tt))))) refl (omega arith)

pcm_sync_stop-safe_example :
    (turns portable codec core behind
      (pcm_sync_stop portable codec core while_waiting stopped).0).inside
    ≡ 0
pcm_sync_stop-safe_example =
    pcm_sync_stop-safe portable codec core while_waiting behind stopped refl
      (refl, (refl, (refl, (refl, (refl, tt))))) (refl, (refl, tt)) refl drains_lem
