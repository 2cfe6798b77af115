-- ===== src/Stream/Packet/Out.antt =====
-- What `jockey3_process_out_packet` (jockey3.c) puts into a playback packet.
use native.Mathlib.Decide.{dec_lt}
use native.Mathlib.Nat.{add-zero, mod-eq_of_lt}
use alsa_jockey.Prelude.{
  ℕ, ◌+◌, ◌-◌, ◌*◌, ◌/◌, ◌%◌, ◌^◌, ◌≤◌, ◌<◌, ◌≡◌, refl, ◌∙◌, arith, ltb, leb, if◌then◌else◌, u64,
  some, ap, subst,
}
use alsa_jockey.Codec.Memory.{Buffer, IsBytes, advance, advance-advance}
use alsa_jockey.Codec.Reference.{wire_byte}
use alsa_jockey.Codec.Batch.{Variant, CodecState, IsReady, encode_batch_lem}
use alsa_jockey.Stream.State.{UrbStream, Runtime}
use alsa_jockey.Stream.Walk.{Walk, walk, IsAt, walk_inv, mod_step}
use alsa_jockey.Codec.Batch.{playback_frames}
use alsa_jockey.Stream.Packet.{
  copy_out, close_period, close_period_lem, dma_of, fill_packet, process_out_packet,
}

-- Frame `y / 48` of the packet holds the encoding of the PCM frame that far round the ring.
abbrev pub OutWritten : Buffer → Buffer → ℕ → ℕ → ℕ → Buffer → Type 0
OutWritten dma old ring start f out =
    (y : ℕ)
    → out y ≡ (
        if ltb y (f * 48)
        then wire_byte (advance dma ((start + y / 48) % ring * 12)) (y % 48)
        else old y)

module _ (v : Variant) (codec : CodecState) (ready : IsReady v codec) (dma old : Buffer)
    (bytes : IsBytes dma) (ring start : ℕ) (pos : 0 < ring) where
  copy_out-OutWritten :
      (f n : ℕ) (s : Buffer)
      → f + n ≤ playback_frames
      → (start + f) % ring + n ≤ ring
      → OutWritten dma old ring start f s
      → OutWritten dma old ring start (f + n) (copy_out v codec dma f ((start + f) % ring * 12) n s)
  copy_out-OutWritten f n s hf hr h y = elim (dec_lt y (f * 48)) [
    | yes early ↦ ground (arith, h y)
    | no late ↦
        let q = (start + f) % ring in
        let z = y - f * 48 in
        let batch =
          encode_batch_lem v codec n (advance s (f * 48)) (advance dma (q * 12)) ready
            (λ x. bytes (x + q * 12)) z in
        elim (dec_lt z (48 * n)) [
          | no after ↦ ground (arith, h (z + f * 48), batch)
          | yes fresh ↦
              let place : (start + y / 48) % ring ≡ q + z / 48 =
                (ap (λ (t : ℕ). t % ring) (omega arith))
                ∙ mod_step (start + f) (z / 48) ring q pos refl (omega arith) in
              let frame =
                advance-advance dma (q * 12) (12 * (z / 48)) ((start + y / 48) % ring * 12)
                  (omega (arith, place)) in
              ground (arith, batch, frame)
        ]
  ]

-- A playback stream that is set up: 4 channels over a ring of whole frames, with both offsets in
-- range.
pub record IsPlaying (s : UrbStream) (r : Runtime) (dma : Buffer) (ring start : ℕ) : Type 0 where
  pub opened : dma_of s ≡ some (r, dma)
  pub four : r.channels ≡ 4
  pub whole : r.buffer_bytes ≡ ring * 12
  pub some_frames : 0 < ring
  pub fits : r.buffer_bytes < 2 ^ 31
  pub position : s.dma_off ≡ start * 12
  pub in_ring : start < ring
  pub period_fits : r.period_size * 12 < 2 ^ 31
  pub period_offset : s.period_off < 2 ^ 31

module _ (v : Variant) (codec : CodecState) (ready : IsReady v codec) (s : UrbStream) (r : Runtime)
    (dma old : Buffer) (ring start : ℕ) (bytes : IsBytes dma)
    (h : IsPlaying s r dma ring start) where
  abbrev walked : Walk Buffer
  walked =
      walk playback_frames r.buffer_bytes 12 (copy_out v codec dma) playback_frames
        (record { f = 0; dma_off = s.dma_off; period_off = s.period_off; bytes = old })

  process_out_packet-walked : process_out_packet v codec s old ≡ (
      let (left, elapsed) = close_period walked.period_off (r.period_size * 12) in
      (record s { dma_off = walked.dma_off; period_off = left }, walked.bytes, elapsed))
  unfolding process_out_packet fill_packet
  process_out_packet-walked =
      let size : u64 (r.period_size * 12) ≡ r.period_size * 12 = omega (arith, h.period_fits) in
      rw (h.opened, process_out_packet) (rw (h.four, size))

  pub process_out_packet-opened : dma_of (process_out_packet v codec s old).0 ≡ some (r, dma)
  unfolding dma_of
  process_out_packet-opened = rw process_out_packet-walked h.opened

  walked_lem :
      (walked.f ≡ playback_frames)
      × IsAt playback_frames ring 12 start s.period_off (OutWritten dma old ring start) walked
  walked_lem =
      walk_inv playback_frames r.buffer_bytes 12 ring (copy_out v codec dma)
        (record {
          some_bytes = omega arith;
          some_frames = h.some_frames;
          whole = h.whole;
          buffer_fits = h.fits;
          packet_fits = omega arith;
        })
        start s.period_off (OutWritten dma old ring start)
        (λ f n t hf hr k.
          copy_out-OutWritten v codec ready dma old bytes ring start h.some_frames f n t hf hr k)
        (omega (arith, h.period_offset)) playback_frames _ (omega arith)
        (record {
          inside = omega arith;
          position = rw (add-zero, mod-eq_of_lt h.in_ring) h.position;
          period = omega arith;
          written = λ y. ground arith;
        })

  -- A packet takes ten PCM frames from the ring, from the hardware pointer on and round its end, and
  -- the wire bytes of each go to its place; the rest of the packet stays. The pointer moves on by ten
  -- frames round the ring, the period counter by 120 bytes; a period is reported exactly when the
  -- counter reaches the period, and the counter then keeps what lies past the boundary.
  pub process_out_packet_lem :
      let (s', out, elapsed) = process_out_packet v codec s old in
      OutWritten dma old ring start playback_frames out
      × (s'.dma_off ≡ (start + playback_frames) % ring * 12)
      × (elapsed ≡ leb (r.period_size * 12) (s.period_off + 120))
      × (s'.period_off ≡ (
          if leb (r.period_size * 12) (s.period_off + 120)
          then (s.period_off + 120) % (r.period_size * 12)
          else s.period_off + 120))
  process_out_packet_lem =
      let (all, at) = walked_lem in
      let period : walked.period_off ≡ s.period_off + 120 = omega (arith, all, at.period) in
      rw process_out_packet-walked (
        subst (λ f. OutWritten dma old ring start f walked.bytes) all at.written,
        subst (λ f. walked.dma_off ≡ (start + f) % ring * 12) all at.position,
        rw (close_period_lem, period),
        rw (close_period_lem, period),
      )
