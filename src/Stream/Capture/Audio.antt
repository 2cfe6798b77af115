-- ===== src/Stream/Capture/Audio.antt =====
-- The audio of a whole capture URB (jockey3.c): `jockey3_process_in_packet` for one packet after the
-- other.
use native.Mathlib.Decide.{dec_le}
use native.Mathlib.Nat.{mod-add-mod, mod-eq_of_lt}
use alsa_jockey.Prelude.{
  ℕ, zero, suc, ◌+◌, ◌-◌, ◌*◌, ◌%◌, ◌<◌, ◌≤◌, ◌≡◌, refl, ◌∙◌, arith, Bool, true, ◌||◌, leb,
  if◌then◌else◌, some, ap, ap₂, subst, sym,
}
use alsa_jockey.Codec.Memory.{Buffer, IsBytes, advance}
use alsa_jockey.Codec.Batch.{Variant, CodecState, capture_frames}
use alsa_jockey.Stream.State.{UrbStream, Runtime, pkt_size}
use alsa_jockey.Stream.Packet.{dma_of, process_in_packet}
use alsa_jockey.Stream.Packet.In.{InWritten, InWritten-trans, IsCapturing, process_in_packet_lem}
use alsa_jockey.Stream.Errors.{AlsaCore}
use alsa_jockey.Stream.Capture.{take_packets}

-- What the packets of a URB, `n` of them, leave.
pub record IsTaken (n : ℕ) (urb dma : Buffer) (ring start : ℕ) (r : Runtime) (s : UrbStream)
    (e : Bool) (res : UrbStream × Bool) : Type 0 where
  pub dma' : Buffer
  pub capturing :
      IsCapturing res.0
        (record r { dma_area = some dma' })
        dma'
        ring
        ((start + n * capture_frames) % ring)
  pub frames : InWritten urb dma ring start (n * capture_frames) dma'
  pub crossed : res.1 ≡ (e || leb (r.period_size * 18) (s.period_off + n * 144))
  pub left : res.0.period_off ≡ (
      if leb (r.period_size * 18) (s.period_off + n * 144)
      then s.period_off + n * 144 - r.period_size * 18
      else s.period_off + n * 144)

no_frames : (urb dma : Buffer) (ring start : ℕ) → InWritten urb dma ring start 0 dma
no_frames urb dma ring start = record {
  arrived = λ k z hk hz. absurd (omega arith);
  kept = λ y away. refl;
}

-- The runtime's buffer is the one that is read or written.
area_same :
    (s : UrbStream) (r : Runtime) (dma : Buffer)
    → dma_of s ≡ some (r, dma)
    → record r { dma_area = some dma } ≡ r
unfolding dma_of
area_same s r dma h = ground (arith, h)

wrapped : (x p : ℕ) → p ≤ x → x < p + p → x % p ≡ x - p
wrapped x p h k = grind arith

-- No period is short enough to end twice within one URB: the counter behind one packet, and then `n`.
crossed_once :
    (off p n : ℕ)
    → off < p
    → suc n * 144 ≤ p
    → let next = if leb p (off + 144) then (off + 144) % p else off + 144 in
      ((leb p (off + 144) || leb p (next + n * 144)) ≡ leb p (off + suc n * 144))
      × ((if leb p (next + n * 144) then next + n * 144 - p else next + n * 144)
          ≡ (if leb p (off + suc n * 144) then off + suc n * 144 - p else off + suc n * 144))
crossed_once off p n lt fits = elim (dec_le p (off + 144)) [
  | yes le ↦
      let wrap = wrapped (off + 144) p le (omega (arith, lt, fits)) in
      let t : leb p (off + 144) ≡ true = ground (arith, le) in
      rw (t, wrap) (ground (arith, le, lt, fits), ground (arith, le, lt, fits))
  | no gt ↦ (ground (arith, gt, lt, fits), ground (arith, gt, lt, fits))
]

or_assoc : (a b c : Bool) → ((a || b) || c) ≡ (a || (b || c))
or_assoc a b c = ground arith

module _ (v : Variant) (codec : CodecState) (core : AlsaCore) (ring : ℕ) where
  -- The frames of a capture URB whose packets fit into the ring and into a period are decoded into the
  -- ring one behind the other, from the hardware pointer on and round the end, and nothing else of the
  -- ring changes; the pointer moves on by eight frames a packet. A period is reported if one was
  -- before, or if the counter reaches the period, and the counter keeps what lies past it.
  pub take_packets_lem :
      (n : ℕ) (s : UrbStream) (r : Runtime) (dma urb : Buffer) (start : ℕ) (e : Bool)
      → IsBytes urb
      → IsCapturing s r dma ring start
      → n * capture_frames ≤ ring
      → n * 144 ≤ r.period_size * 18
      → IsTaken n urb dma ring start r s e (take_packets v codec core n urb s e)
  unfolding take_packets
  take_packets_lem zero s r dma urb start e bytes h fits period = record {
    dma' = dma;
    capturing = rw (area_same s r dma h.opened) (
        subst (λ (q : ℕ). IsCapturing s r dma ring q)
          (sym (ap (λ (t : ℕ). t % ring) (omega arith) ∙ mod-eq_of_lt h.in_ring)) h);
    frames = no_frames urb dma ring start;
    crossed = ground (arith, h.period_offset);
    left = ground (arith, h.period_offset);
  }
  take_packets_lem (suc n) s r dma urb start e bytes h fits period =
      let (s1, one) = process_in_packet v codec s urb in
      let (mid, next, first, crosses, off) =
        process_in_packet_lem v codec s r dma urb ring start bytes h in
      let p = r.period_size * 18 in
      let rest =
        take_packets_lem n s1 (record r { dma_area = some mid }) mid (advance urb pkt_size)
          ((start + capture_frames) % ring) (e || one) (λ x. bytes (x + pkt_size)) next
          (omega (arith, fits)) (omega (arith, period)) in
      let room = h.room in
      let both : capture_frames + n * capture_frames ≡ suc n * capture_frames = omega arith in
      let place : ((start + capture_frames) % ring + n * capture_frames) % ring
          ≡ (start + suc n * capture_frames) % ring =
        mod-add-mod (start + capture_frames) ring (n * capture_frames)
        ∙ ap (λ (t : ℕ). t % ring) (omega arith) in
      let then_on = crossed_once s.period_off p n h.period_offset period in
      record {
        dma' = rest.dma';
        capturing =
            subst
              (λ (q : ℕ).
                IsCapturing (take_packets v codec core n (advance urb pkt_size) s1 (e || one)).0
                  (record r { dma_area = some rest.dma' }) rest.dma' ring q)
              place rest.capturing;
        frames =
            subst (λ (f : ℕ). InWritten urb dma ring start f rest.dma') both
              (InWritten-trans urb dma mid rest.dma' ring start capture_frames (n * capture_frames)
                (omega arith) (omega (arith, fits)) first rest.frames);
        crossed =
            rest.crossed
            ∙ ap₂ (λ (b : Bool) (o : ℕ). (e || b) || leb p (o + n * 144)) crosses off
            ∙ or_assoc e (leb p (s.period_off + 144)) _
            ∙ ap (λ (b : Bool). e || b) then_on.0;
        left =
            rest.left
            ∙ ap (λ (o : ℕ). if leb p (o + n * 144) then o + n * 144 - p else o + n * 144) off
            ∙ then_on.1;
      }
