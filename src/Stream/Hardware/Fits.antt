-- ===== src/Stream/Hardware/Fits.antt =====
-- Every stream that the driver's tables let through (jockey3.c) is one that its packets fit.
use alsa_jockey.Prelude.{ℕ, ◌*◌, ◌≤◌, ◌≡◌, refl, arith, some, ap, ◌∙◌}
use alsa_jockey.Codec.Memory.{Buffer}
use alsa_jockey.Codec.Batch.{playback_frames, capture_frames}
use alsa_jockey.Stream.State.{
  UrbStream, Runtime, Direction, playback_direction, capture_direction, Chip, get_pcm_urb_stream,
}
use alsa_jockey.Stream.Packet.{dma_of}
use alsa_jockey.Stream.Packet.Out.{IsPlaying}
use alsa_jockey.Stream.Packet.In.{IsCapturing}
use alsa_jockey.Stream.Sizing.{IsIlog2, pcm_set_n, pcm_set_n_lem}
use alsa_jockey.Stream.Hardware.{pcm_hw, Params, period_bytes, IsAllowed, IsRuntimeOf}

-- A stream at the start of its ring and of a period.
abbrev pub rewound : UrbStream → UrbStream
rewound s = record s { dma_off = 0; period_off = 0 }

-- A stream of one direction that is set up, and whose URBs of `n_pkts` packets fit.
abbrev pub Fits : Direction → UrbStream → Runtime → Buffer → ℕ → Type 0
Fits playback_direction s r dma ring =
    IsPlaying s r dma ring 0
    × (s.n_pkts * playback_frames ≤ ring)
    × (s.n_pkts * 120 ≤ r.period_size * 12)
Fits capture_direction s r dma ring =
    IsCapturing s r dma ring 0
    × (s.n_pkts * capture_frames ≤ ring)
    × (s.n_pkts * 144 ≤ r.period_size * 18)

ring_bytes : (size periods frame : ℕ) → periods * (size * frame) ≡ size * periods * frame
ring_bytes size periods frame = grind arith

at_least_one : (size periods : ℕ) → 2 ≤ periods → size ≤ size * periods
at_least_one size periods h = grind arith

module _ (ilog2 : ℕ → ℕ) (log : IsIlog2 ilog2) (p : Params) (c : Chip) (r : Runtime) (dma : Buffer)
    (of : IsRuntimeOf p r) where
  -- Whatever the tables allow, hw_params and the rewinding of .prepare leave a stream as the packets
  -- want it: a ring of whole frames with the pointers at its start, in which a URB of as many packets
  -- as hw_params chose takes up no more than the ring and no more than a period.
  pub pcm_set_n-Fits :
      (d : Direction)
      → IsAllowed (pcm_hw d) p
      → let s = rewound (get_pcm_urb_stream (pcm_set_n ilog2 d (period_bytes p) c) d) in
        dma_of s ≡ some (r, dma) → Fits d s r dma (p.period_size * p.periods)
  unfolding pcm_hw
  pcm_set_n-Fits playback_direction a e =
      let sized =
        pcm_set_n_lem ilog2 playback_direction (period_bytes p) c log
          (omega (arith, a.period_high)) in
      let wide : p.channels ≡ 4 = omega (arith, a.channels_low, a.channels_high) in
      let period : period_bytes p ≡ p.period_size * 12 =
        ap (λ (n : ℕ). p.period_size * (n * 3)) wide in
      let whole : r.buffer_bytes ≡ p.period_size * p.periods * 12 =
        of.whole_buffer
        ∙ ap (λ (n : ℕ). p.periods * n) period
        ∙ ring_bytes p.period_size p.periods 12 in
      let longer = at_least_one p.period_size p.periods a.periods_low in
      (
        record {
          opened = e;
          four = of.as_wide ∙ wide;
          whole = whole;
          some_frames = omega (arith, longer, period, a.period_low);
          fits = omega (arith, of.whole_buffer, a.buffer_high);
          position = refl;
          in_ring = omega (arith, longer, period, a.period_low);
          period_fits = omega (arith, of.one_period, period, a.period_high);
          period_offset = omega (arith, of.one_period, period, a.period_low);
        },
        omega (arith, sized.2, period, a.period_low, longer),
        omega (arith, sized.2, period, a.period_low, of.one_period),
      )
  pcm_set_n-Fits capture_direction a e =
      let sized =
        pcm_set_n_lem ilog2 capture_direction (period_bytes p) c log
          (omega (arith, a.period_high)) in
      let wide : p.channels ≡ 6 = omega (arith, a.channels_low, a.channels_high) in
      let period : period_bytes p ≡ p.period_size * 18 =
        ap (λ (n : ℕ). p.period_size * (n * 3)) wide in
      let whole : r.buffer_bytes ≡ p.period_size * p.periods * 18 =
        of.whole_buffer
        ∙ ap (λ (n : ℕ). p.periods * n) period
        ∙ ring_bytes p.period_size p.periods 18 in
      let longer = at_least_one p.period_size p.periods a.periods_low in
      (
        record {
          opened = e;
          six = of.as_wide ∙ wide;
          whole = whole;
          room = omega (arith, longer, period, a.period_low);
          fits = omega (arith, of.whole_buffer, a.buffer_high);
          position = refl;
          in_ring = omega (arith, longer, period, a.period_low);
          period_fits = omega (arith, of.one_period, period, a.period_high);
          period_offset = omega (arith, of.one_period, period, a.period_low);
        },
        omega (arith, sized.2, period, a.period_low, longer),
        omega (arith, sized.2, period, a.period_low, of.one_period),
      )
