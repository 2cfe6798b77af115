-- ===== src/Stream/Hardware/Pointer.antt =====
-- The position that `jockey3_pcm_pointer` (jockey3.c) reports, against the frames that a URB moves.
use alsa_jockey.Prelude.{ℕ, arith, ◌+◌, ◌*◌, ◌%◌, ◌<◌, ◌≤◌, ◌≡◌, false, ap, ◌∙◌, sym}
use alsa_jockey.Codec.Memory.{Buffer, IsBytes}
use alsa_jockey.Codec.Batch.{Variant, CodecState, IsReady, playback_frames, capture_frames}
use alsa_jockey.Stream.State.{Runtime, Chip, playback_direction, capture_direction}
use alsa_jockey.Stream.Errors.{AlsaCore}
use alsa_jockey.Stream.Capture.{take_packets}
use alsa_jockey.Stream.Capture.Audio.{take_packets_lem}
use alsa_jockey.Stream.Packet.In.{IsCapturing}
use alsa_jockey.Stream.Playback.{give_packets}
use alsa_jockey.Stream.Playback.Audio.{give_packets_lem}
use alsa_jockey.Stream.Packet.Out.{IsPlaying}
use alsa_jockey.Stream.Hardware.{pcm_pointer}

-- `bytes_to_frames` divides a whole number of frames, of 3 bytes for each channel.
abbrev pub IsBytesToFrames : (Runtime → ℕ → ℕ) → Type 0
IsBytesToFrames bytes_to_frames =
    (r : Runtime) (frames : ℕ)
    → 0 < r.channels
    → bytes_to_frames r (frames * (r.channels * 3)) ≡ frames

module _ (bytes_to_frames : Runtime → ℕ → ℕ) (law : IsBytesToFrames bytes_to_frames) where
  frames_at :
      (r : Runtime) (off x width : ℕ)
      → off ≡ x * (width * 3)
      → r.channels ≡ width
      → 0 < width
      → bytes_to_frames r off ≡ x
  frames_at r off x width e wide pos =
      ap (bytes_to_frames r) (e ∙ ap (λ (n : ℕ). x * (n * 3)) (sym wide))
      ∙ law r x (omega (arith, wide, pos))

  -- Behind a capture URB whose packets fit into the ring and into a period, the reported position has
  -- moved on by eight frames a packet round the ring; behind a playback URB, by ten. Both streams are
  -- set up, the codec's tables are those of its variant, and the URB and the playback ring hold bytes.
  pub pcm_pointer-moves :
      (v : Variant) (codec : CodecState) (core : AlsaCore) (c : Chip) (r q : Runtime)
      (recorded played urb : Buffer) (ring_in ring_out start_in start_out n : ℕ)
      → IsReady v codec
      → IsBytes urb
      → IsBytes played
      → IsCapturing c.capture r recorded ring_in start_in
      → IsPlaying c.playback q played ring_out start_out
      → 0 < q.period_size
      → n * capture_frames ≤ ring_in
      → n * 144 ≤ r.period_size * 18
      → let taken = record c { capture = (take_packets v codec core n urb c.capture false).0 } in
        let given = record c { playback = (give_packets v codec n c.playback urb false).0 } in
        (pcm_pointer bytes_to_frames capture_direction r taken
          ≡ (pcm_pointer bytes_to_frames capture_direction r c + n * capture_frames) % ring_in)
        × (pcm_pointer bytes_to_frames playback_direction q given
            ≡ (pcm_pointer bytes_to_frames playback_direction q c + n * playback_frames) % ring_out)
  unfolding pcm_pointer
  pcm_pointer-moves v codec core c r q recorded played urb ring_in ring_out start_in start_out n
        ready bytes heard h k timed fits period =
      let t =
        take_packets_lem v codec core ring_in n c.capture r recorded urb start_in false bytes h fits
          period in
      let (g, _) =
        give_packets_lem v codec ready q played ring_out heard timed n c.playback urb start_out
          false k in
      (
        frames_at r _ _ 6 t.capturing.position h.six (omega arith)
            ∙ ap (λ (x : ℕ). (x + n * capture_frames) % ring_in)
                (sym (frames_at r _ _ 6 h.position h.six (omega arith))),
        frames_at q _ _ 4 g.position k.four (omega arith)
            ∙ ap (λ (x : ℕ). (x + n * playback_frames) % ring_out)
                (sym (frames_at q _ _ 4 k.position k.four (omega arith))),
      )
