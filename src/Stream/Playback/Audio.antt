-- ===== src/Stream/Playback/Audio.antt =====
-- The audio of a whole playback URB (jockey3.c): `jockey3_process_out_packet` for one packet after
-- the other.
use native.Mathlib.Decide.{dec_lt}
use native.Mathlib.Nat.{mod-lt, mod-add-mod, mod-eq_of_lt}
use alsa_jockey.Prelude.{
  ℕ, zero, suc, ◌+◌, ◌-◌, ◌*◌, ◌/◌, ◌%◌, ◌<◌, ◌≡◌, ◌∙◌, arith, Bool, ◌||◌, ap, subst, sym,
}
use alsa_jockey.Codec.Memory.{Buffer, IsBytes, advance}
use alsa_jockey.Codec.Reference.{wire_byte}
use alsa_jockey.Codec.Batch.{Variant, CodecState, IsReady}
use alsa_jockey.Stream.State.{UrbStream, Runtime, pkt_size}
use alsa_jockey.Codec.Batch.{playback_frames}
use alsa_jockey.Stream.Packet.{process_out_packet}
use alsa_jockey.Stream.Packet.Out.{IsPlaying, process_out_packet_lem, process_out_packet-opened}
use alsa_jockey.Stream.Playback.{give_packets}

module _ (v : Variant) (codec : CodecState) (ready : IsReady v codec) (r : Runtime) (dma : Buffer)
    (ring : ℕ) (bytes : IsBytes dma) (timed : 0 < r.period_size) where
  process_out_packet-IsPlaying :
      (s : UrbStream) (old : Buffer) (start : ℕ)
      → IsPlaying s r dma ring start
      → IsPlaying (process_out_packet v codec s old).0 r dma ring ((start + playback_frames) % ring)
  process_out_packet-IsPlaying s old start h =
      let out = process_out_packet_lem v codec ready s r dma old ring start bytes h in
      let p = r.period_size * 12 in
      record {
        opened = process_out_packet-opened v codec ready s r dma old ring start bytes h;
        four = h.four;
        whole = h.whole;
        some_frames = h.some_frames;
        fits = h.fits;
        position = out.1;
        in_ring = mod-lt _ h.some_frames;
        period_fits = h.period_fits;
        period_offset =
            ground (arith, out.3, h.period_fits, mod-lt (s.period_off + 120) {m = p} (omega arith));
      }

  -- Frame `y / 48` of packet `i` of a playback URB is the encoding of frame `10 i + y / 48` of the
  -- ring from the hardware pointer on; the pointer ends `10 n` frames further round the ring. The
  -- codec's tables are those of its variant, the stream is set up, the period is not empty, and the
  -- ring holds bytes.
  pub give_packets_lem :
      (n : ℕ) (s : UrbStream) (old : Buffer) (start : ℕ) (e : Bool)
      → IsPlaying s r dma ring start
      → let (s', out, elapsed) = give_packets v codec n s old e in
        IsPlaying s' r dma ring ((start + n * playback_frames) % ring)
        × ((i y : ℕ)
            → i < n
            → y < 480
            → out (i * pkt_size + y)
              ≡ wire_byte
                  (advance dma ((start + i * playback_frames + y / 48) % ring * 12))
                  (y % 48))
  unfolding give_packets
  give_packets_lem zero s old start e h = (
    subst (λ q. IsPlaying s r dma ring q)
        (sym (ap (λ (t : ℕ). t % ring) (omega arith) ∙ mod-eq_of_lt h.in_ring)) h,
    λ i y k _. omega arith,
  )
  give_packets_lem (suc n) s old start e h =
      let (s1, mid, one) = process_out_packet v codec s old in
      let first = process_out_packet_lem v codec ready s r dma old ring start bytes h in
      let next = process_out_packet-IsPlaying s old start h in
      let (last, rest) =
        give_packets_lem n s1 (advance mid pkt_size) ((start + playback_frames) % ring) (e || one)
          next in
      (
        subst
            (λ q.
              IsPlaying (give_packets v codec n s1 (advance mid pkt_size) (e || one)).0 r dma ring
                q)
            (mod-add-mod (start + playback_frames) ring (n * playback_frames)
              ∙ ap (λ (t : ℕ). t % ring) (omega arith))
            last,
        λ i y k j. elim (dec_lt 0 i) [
          | yes p ↦
              let x : i * pkt_size + y - pkt_size ≡ (i - 1) * pkt_size + y = omega arith in
              let place : ((start + playback_frames) % ring + (i - 1) * playback_frames + y / 48)
                    % ring
                  ≡ (start + i * playback_frames + y / 48) % ring =
                (ap (λ (t : ℕ). t % ring) (omega arith))
                ∙ mod-add-mod (start + playback_frames) ring ((i - 1) * playback_frames + y / 48)
                ∙ ap (λ (t : ℕ). t % ring) (omega arith) in
              let frame = rest (i - 1) y (omega arith) j in ground (arith, x, place, frame)
          | no p ↦ ground (arith, first.0 y)
        ],
      )
