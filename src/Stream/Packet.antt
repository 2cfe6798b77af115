-- ===== src/Stream/Packet.antt =====
-- One packet: `jockey3_process_out_packet` and `jockey3_process_in_packet` (jockey3.c).
pub mod Out
pub mod In
use alsa_jockey.Prelude.{
  ℕ, zero, suc, ◌+◌, ◌-◌, ◌*◌, ◌/◌, ◌%◌, ◌^◌, ◌≤◌, ◌<◌, ◌≡◌, refl, ◌∙◌, arith, Bool, true, false,
  ltb, leb, ◌==◌, if◌then◌else◌, u64, Option, none, some, Bool-cases, inl, inr,
}
use alsa_jockey.Codec.Memory.{Buffer, IsBytes, advance, rejoin}
use alsa_jockey.Codec.Batch.{
  playback_frames, capture_frames, Variant, CodecState, encode_batch, decode_batch,
}
use alsa_jockey.Stream.State.{UrbStream, Substream, Runtime}
use alsa_jockey.Stream.Walk.{Walk, walk}

-- The end of both functions: whether a period boundary was crossed, and what is left of it.
unfoldable pub close_period : ℕ → ℕ → ℕ × Bool
close_period period_off period_bytes =
    if leb period_bytes period_off then (period_off % period_bytes, true) else (period_off, false)

pub close_period_lem :
    (off bytes : ℕ)
    → close_period off bytes ≡ ((if leb bytes off then off % bytes else off), leb bytes off)
unfolding close_period
close_period_lem off bytes = elim (Bool-cases (leb bytes off)) [ inl e ↦ rw e | inr e ↦ rw e ]

-- The guards of both functions: the runtime and its buffer, if all are there.
unfoldable pub dma_of : UrbStream → Option (Runtime × Buffer)
dma_of s = elim s.substream [
  | none ↦ none
  | some sub ↦ elim sub.runtime [
    | none ↦ none
    | some runtime ↦ elim runtime.dma_area [ none ↦ none | some dma ↦ some (runtime, dma) ]
  ]
]

module _ (v : Variant) (codec : CodecState) where
  -- `ploytec_encode_batch(urb_buf + f * 48, dma_area + dma_off, n)`.
  abbrev pub copy_out : Buffer → ℕ → ℕ → ℕ → Buffer → Buffer
  copy_out dma f dma_off n urb_buf =
      rejoin urb_buf (f * 48)
        (encode_batch v codec (advance urb_buf (f * 48)) (advance dma dma_off) n)

  -- The body behind the guards.
  unfoldable pub fill_packet : UrbStream → Runtime → Buffer → Buffer → UrbStream × Buffer × Bool
  fill_packet s runtime dma urb_buf =
      let frame_size = runtime.channels * 3 in
      let w =
        walk playback_frames runtime.buffer_bytes frame_size (copy_out dma) playback_frames
          (record { f = 0; dma_off = s.dma_off; period_off = s.period_off; bytes = urb_buf }) in
      let (left, elapsed) = close_period w.period_off (u64 (runtime.period_size * frame_size)) in
      (record s { dma_off = w.dma_off; period_off = left }, w.bytes, elapsed)

  -- The new stream, the packet's bytes, and whether a period elapsed.
  unfoldable pub process_out_packet : UrbStream → Buffer → UrbStream × Buffer × Bool
  process_out_packet s urb_buf = elim (dma_of s) [
    | none ↦ (s, urb_buf, false)
    | some (runtime, dma) ↦ fill_packet s runtime dma urb_buf
  ]

  -- `ploytec_decode_batch(dma_area + dma_off, urb_buf + f * 64, n)`.
  abbrev pub copy_in : Buffer → ℕ → ℕ → ℕ → Buffer → Buffer
  copy_in urb_buf f dma_off n dma =
      rejoin dma dma_off (decode_batch v (advance dma dma_off) (advance urb_buf (f * 64)) n)

  -- The body behind the guards.
  unfoldable pub drain_packet : UrbStream → Runtime → Buffer → Buffer → UrbStream × Bool
  drain_packet s runtime dma urb_buf =
      let frame_size = runtime.channels * 3 in
      let w =
        walk capture_frames runtime.buffer_bytes frame_size (copy_in urb_buf) capture_frames
          (record { f = 0; dma_off = s.dma_off; period_off = s.period_off; bytes = dma }) in
      let (left, elapsed) = close_period w.period_off (u64 (runtime.period_size * frame_size)) in
      (
        record s {
          substream = some (record { runtime = some (record runtime { dma_area = some w.bytes }) });
          dma_off = w.dma_off;
          period_off = left;
        },
        elapsed,
      )

  -- The new stream, whose `dma_area` is written to, and whether a period elapsed.
  unfoldable pub process_in_packet : UrbStream → Buffer → UrbStream × Bool
  process_in_packet s urb_buf = elim (dma_of s) [
    | none ↦ (s, false)
    | some (runtime, dma) ↦ drain_packet s runtime dma urb_buf
  ]
