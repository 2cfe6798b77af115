-- ===== src/Stream/Playback/Given.antt =====
-- Step 1 of `jockey3_playback_callback` (jockey3.c) on a stream that plays.
use alsa_jockey.Prelude.{
  ℕ, ◌+◌, ◌*◌, ◌/◌, ◌%◌, ◌<◌, ◌≡◌, refl, arith, ap, ◌∙◌, Bool, true, false, ltb, Option, none, some,
}
use alsa_jockey.Errno.{Errno}
use alsa_jockey.Codec.Memory.{Buffer, IsBytes, advance}
use alsa_jockey.Codec.Reference.{wire_byte}
use alsa_jockey.Codec.Batch.{Variant, CodecState, IsReady, playback_frames}
use alsa_jockey.Stream.State.{
  UrbStream, Substream, Runtime, has_substream, max_urb_errors, pkt_size,
}
use alsa_jockey.Stream.Packet.{dma_of}
use alsa_jockey.Stream.Packet.Out.{IsPlaying}
use alsa_jockey.Stream.Capture.{finish}
use alsa_jockey.Stream.Handler.{one_if}
use alsa_jockey.Stream.Playback.{give_packets, join_and_give}
use alsa_jockey.Stream.Playback.Audio.{give_packets_lem}

-- A stream that the handler takes audio from.
pub record IsLive (s : UrbStream) : Type 0 where
  pub started : s.running ≡ true
  pub unfenced : s.stopping ≡ false
  pub trusted : s.consec_errors < max_urb_errors

opened-has_substream :
    {r : Runtime} {dma : Buffer} (s : UrbStream) → dma_of s ≡ some (r, dma) → has_substream s ≡ true
unfolding dma_of
opened-has_substream {r = r} {dma = dma} s e = by_substream s.substream e
  where
    by_substream :
        (o : Option Substream)
        → dma_of (record s { substream = o }) ≡ some (r, dma)
        → has_substream (record s { substream = o }) ≡ true
    by_substream none e = cc
    by_substream (some x) e = refl

joined-IsPlaying :
    {s : UrbStream} {r : Runtime} {dma : Buffer} {ring start : ℕ} (n : ℕ)
    → IsPlaying s r dma ring start
    → IsPlaying (record s { callbacks_active = n; consec_errors = 0 }) r dma ring start
unfolding dma_of
joined-IsPlaying n h = record {
  opened = h.opened;
  four = h.four;
  whole = h.whole;
  some_frames = h.some_frames;
  fits = h.fits;
  position = h.position;
  in_ring = h.in_ring;
  period_fits = h.period_fits;
  period_offset = h.period_offset;
}

-- A URB that is counted off changes neither.
pub counted-IsLive : {s : UrbStream} {n : ℕ} → IsLive s → IsLive (record s { urbs_in_flight = n })
counted-IsLive live = record {
  started = live.started;
  unfenced = live.unfenced;
  trusted = live.trusted;
}

pub counted-IsPlaying :
    {s : UrbStream} {r : Runtime} {dma : Buffer} {ring start n : ℕ}
    → IsPlaying s r dma ring start
    → IsPlaying (record s { urbs_in_flight = n }) r dma ring start
unfolding dma_of
counted-IsPlaying h = record {
  opened = h.opened;
  four = h.four;
  whole = h.whole;
  some_frames = h.some_frames;
  fits = h.fits;
  position = h.position;
  in_ring = h.in_ring;
  period_fits = h.period_fits;
  period_offset = h.period_offset;
}

-- What is submitted, if anything is, is as long as asked for.
pub finish-length :
    (gone active : Bool) (len : ℕ) (r : Option Errno) (s : UrbStream)
    → one_if (finish gone active len r s).submitted ≡ 1
    → (finish gone active len r s).submitted ≡ some len
unfolding finish one_if
finish-length gone active len r s e = ground (arith, e)

module _ (v : Variant) (codec : CodecState) where
  join_and_give-given :
      (s : UrbStream) (buf : Buffer)
      → IsLive s
      → has_substream s ≡ true
      → (join_and_give v codec true s buf).1
        ≡ (give_packets v codec s.n_pkts
            (record s { callbacks_active = s.callbacks_active + 1; consec_errors = 0 })
            buf
            false).1
  unfolding join_and_give
  join_and_give-given s buf live has =
      let trusted : ltb s.consec_errors max_urb_errors ≡ true = ground (arith, live.trusted) in
      rw (trusted, live.unfenced, live.started, has) refl

  pub join_and_give-audio :
      (s : UrbStream) (r : Runtime) (dma buf : Buffer) (ring start : ℕ)
      → IsReady v codec
      → IsBytes dma
      → 0 < r.period_size
      → IsLive s
      → IsPlaying s r dma ring start
      → (i y : ℕ) → i < s.n_pkts
      → y < 480
      → (join_and_give v codec true s buf).1 (i * pkt_size + y)
        ≡ wire_byte (advance dma ((start + i * playback_frames + y / 48) % ring * 12)) (y % 48)
  join_and_give-audio s r dma buf ring start ready bytes timed live h i y k j =
      let (_, audio) =
        give_packets_lem v codec ready r dma ring bytes timed s.n_pkts
          (record s { callbacks_active = s.callbacks_active + 1; consec_errors = 0 }) buf start
          false (joined-IsPlaying (s.callbacks_active + 1) h) in
      ap (λ (out : Buffer). out (i * pkt_size + y))
        (join_and_give-given s buf live (opened-has_substream s h.opened))
      ∙ audio i y k j
