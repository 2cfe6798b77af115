-- ===== src/Stream/Packet/In.antt =====
-- What `jockey3_process_in_packet` (jockey3.c) puts into the ring.
use native.Mathlib.Decide.{dec_lt}
use native.Mathlib.Nat.{add-zero, mod-eq_of_lt, mod-lt, mod-add-mod, mod-eq-sub-mod, add_assoc}
use alsa_jockey.Prelude.{
  ℕ, ◌+◌, ◌-◌, ◌*◌, ◌/◌, ◌%◌, ◌^◌, ◌≤◌, ◌<◌, ◌≡◌, ◌≢◌, refl, ◌∙◌, arith, leb, if◌then◌else◌, u64,
  some, ap, subst, sym,
}
use alsa_jockey.Codec.Memory.{Buffer, IsBytes, advance, rejoin, advance-advance}
use alsa_jockey.Codec.Reference.Decode.{gathered}
use alsa_jockey.Codec.Batch.{Variant, CodecState, capture_frames, decode_batch, decode_batch_lem}
use alsa_jockey.Stream.State.{UrbStream, Runtime}
use alsa_jockey.Stream.Packet.{
  copy_in, close_period, close_period_lem, dma_of, drain_packet, process_in_packet,
}
use alsa_jockey.Stream.Walk.{Walk, walk, IsAt, walk_inv}

-- Each of the first `f` frames of the URB, decoded, stands that far behind `start` round the ring; all
-- else of the ring is as it was.
pub record InWritten (urb old : Buffer) (ring start f : ℕ) (out : Buffer) : Type 0 where
  pub arrived :
      (k z : ℕ)
      → k < f
      → z < 18
      → out ((start + k) % ring * 18 + z) ≡ gathered (advance urb (64 * k)) z 8
  pub kept : (y : ℕ) → ((k : ℕ) → k < f → y / 18 ≢ (start + k) % ring) → out y ≡ old y

-- Places less than a ring apart differ.
places_differ : (a d m : ℕ) → 0 < d → d < m → a % m ≢ (a + d) % m
places_differ a d m pos h e =
    grind (arith, mod-add-mod a m d, mod-lt a {m = m}, mod-eq_of_lt, mod-eq-sub-mod)

first_of_frame : (x z : ℕ) → z < 18 → x ≡ (x * 18 + z) / 18
first_of_frame x z h = omega arith

module _ (urb old mid out : Buffer) (ring start a b : ℕ) (some_frames : 0 < ring)
    (fits : a + b ≤ ring) where
  place_behind : (k : ℕ) → ((start + a) % ring + k) % ring ≡ (start + (a + k)) % ring
  place_behind k = mod-add-mod (start + a) ring k ∙ ap (λ (t : ℕ). t % ring) (add_assoc start a k)

  pub InWritten-trans :
      InWritten urb old ring start a mid
      → InWritten (advance urb (64 * a)) mid ring ((start + a) % ring) b out
      → InWritten urb old ring start (a + b) out
  InWritten-trans f g = record {
    arrived = λ k z hk hz. elim (dec_lt k a) [
      | yes early ↦
          let away =
            λ (j : ℕ) (hj : j < b)
                (e : ((start + k) % ring * 18 + z) / 18 ≡ ((start + a) % ring + j) % ring).
              places_differ (start + k) (a + j - k) ring (omega arith) (omega arith) (
                first_of_frame ((start + k) % ring) z hz
                ∙ e
                ∙ place_behind j
                ∙ ap (λ (t : ℕ). t % ring) (omega arith)) in
          g.kept _ away ∙ f.arrived k z early hz
      | no late ↦
          let place : ((start + a) % ring + (k - a)) % ring ≡ (start + k) % ring =
            place_behind (k - a) ∙ ap (λ (t : ℕ). t % ring) (omega arith) in
          ap (λ (t : ℕ). out (t * 18 + z)) (sym place)
          ∙ g.arrived (k - a) z (omega arith) hz
          ∙ ap (λ (p : Buffer). gathered p z 8)
              (advance-advance urb (64 * a) (64 * (k - a)) (64 * k) (omega arith))
    ];
    kept = λ y away.
        g.kept y (λ j hj e. away (a + j) (omega arith) (e ∙ place_behind j))
        ∙ f.kept y (λ k hk. away k (omega arith));
  }

-- One batch, which does not reach past the ring's end.
module _ (v : Variant) (urb : Buffer) (bytes : IsBytes urb) (ring q n : ℕ) (inside : q + n ≤ ring)
    (some_frames : 0 < ring) where
  batch-InWritten :
      (dest : Buffer)
      → q < ring
      → InWritten urb dest ring q n
          (rejoin dest (q * 18) (decode_batch v (advance dest (q * 18)) urb n))
  batch-InWritten dest lt = record {
    arrived = λ k z hk hz.
        let place : (q + k) % ring ≡ q + k = mod-eq_of_lt (omega arith) in
        let y = k * 18 + z in
        let into : (q + k) * 18 + z - q * 18 ≡ y = omega arith in
        let frame : y / 18 ≡ k = omega arith in
        let byte : y % 18 ≡ z = omega arith in
        let batch = decode_batch_lem v n (advance dest (q * 18)) urb bytes y in
        rw place (ground (arith, into, frame, byte, batch));
    kept = λ y away. elim (dec_lt y (q * 18)) [
      | yes before ↦ ground arith
      | no after ↦
          let w = y - q * 18 in
          let batch = decode_batch_lem v n (advance dest (q * 18)) urb bytes w in
          elim (dec_lt w (18 * n)) [
            | no behind ↦ ground (arith, batch)
            | yes among ↦
                let place : (q + w / 18) % ring ≡ q + w / 18 = mod-eq_of_lt (omega arith) in
                absurd (away (w / 18) (omega arith) (omega (arith, place)))
          ]
    ];
  }

-- A capture stream that is set up: 6 channels over a ring of whole frames that holds a packet, with
-- both offsets in range, the period's below the period.
pub record IsCapturing (s : UrbStream) (r : Runtime) (dma : Buffer) (ring start : ℕ) : Type 0 where
  pub opened : dma_of s ≡ some (r, dma)
  pub six : r.channels ≡ 6
  pub whole : r.buffer_bytes ≡ ring * 18
  pub room : capture_frames ≤ ring
  pub fits : r.buffer_bytes < 2 ^ 31
  pub position : s.dma_off ≡ start * 18
  pub in_ring : start < ring
  pub period_fits : r.period_size * 18 < 2 ^ 31
  pub period_offset : s.period_off < r.period_size * 18

module _ (v : Variant) (codec : CodecState) (s : UrbStream) (r : Runtime) (dma urb : Buffer)
    (ring start : ℕ) (bytes : IsBytes urb) (h : IsCapturing s r dma ring start) where
  abbrev walked : Walk Buffer
  walked =
      walk capture_frames r.buffer_bytes 18 (copy_in v codec urb) capture_frames
        (record { f = 0; dma_off = s.dma_off; period_off = s.period_off; bytes = dma })

  copy_in-InWritten :
      (f n : ℕ) (t : Buffer)
      → f + n ≤ capture_frames
      → (start + f) % ring + n ≤ ring
      → InWritten urb dma ring start f t
      → InWritten urb dma ring start (f + n) (copy_in v codec urb f ((start + f) % ring * 18) n t)
  copy_in-InWritten f n t hf hr k =
      let q = (start + f) % ring in
      let room = h.room in
      let pos : 0 < ring = omega arith in
      let place : f * 64 ≡ 64 * f = omega arith in
      rw place (
        InWritten-trans urb dma t _ ring start f n pos (omega arith) k (
          batch-InWritten v (advance urb (64 * f)) (λ x. bytes (x + 64 * f)) ring q n hr pos t
            (mod-lt (start + f) pos)))

  walked_lem :
      (walked.f ≡ capture_frames)
      × IsAt capture_frames ring 18 start s.period_off (InWritten urb dma ring start) walked
  walked_lem =
      walk_inv capture_frames r.buffer_bytes 18 ring (copy_in v codec urb)
        (record {
          some_bytes = omega arith;
          some_frames = omega (arith, h.room);
          whole = h.whole;
          buffer_fits = h.fits;
          packet_fits = omega arith;
        })
        start s.period_off (InWritten urb dma ring start) copy_in-InWritten
        (omega (arith, h.period_offset, h.period_fits)) capture_frames _ (omega arith)
        (record {
          inside = omega arith;
          position = rw (add-zero, mod-eq_of_lt h.in_ring) h.position;
          period = omega arith;
          written = record { arrived = λ k z hk hz. absurd (omega arith); kept = λ y away. refl };
        })

  process_in_packet-walked : process_in_packet v codec s urb ≡ (
      let (left, elapsed) = close_period walked.period_off (r.period_size * 18) in
      (
        record s {
          substream = some (record { runtime = some (record r { dma_area = some walked.bytes }) });
          dma_off = walked.dma_off;
          period_off = left;
        },
        elapsed,
      ))
  unfolding process_in_packet drain_packet
  process_in_packet-walked =
      let size : u64 (r.period_size * 18) ≡ r.period_size * 18 = omega (arith, h.period_fits) in
      rw (h.opened, process_in_packet) (rw (h.six, size))

  -- The period counter behind `got` more bytes.
  pub process_in_packet_lem :
      let (s', elapsed) = process_in_packet v codec s urb in
      (dma' : Buffer) × IsCapturing s'
        (record r { dma_area = some dma' })
        dma'
        ring
        ((start + capture_frames) % ring)
      × InWritten urb dma ring start capture_frames dma'
      × (elapsed ≡ leb (r.period_size * 18) (s.period_off + 144))
      × (s'.period_off ≡ (
          if leb (r.period_size * 18) (s.period_off + 144)
          then (s.period_off + 144) % (r.period_size * 18)
          else s.period_off + 144))
  process_in_packet_lem =
      let (all, at) = walked_lem in
      let p = r.period_size * 18 in
      let period : walked.period_off ≡ s.period_off + 144 = omega (arith, all, at.period) in
      let pos : 0 < ring = omega (arith, h.room) in
      let left : (close_period walked.period_off p).0 < p =
        rw (close_period_lem, period)
          (ground (
            arith,
            h.period_offset,
            mod-lt (s.period_off + 144) {m = p} (omega (arith, h.period_offset)),
          )) in
      rw process_in_packet-walked (
        walked.bytes,
        (record {
          opened = unfold dma_of in refl;
          six = h.six;
          whole = h.whole;
          room = h.room;
          fits = h.fits;
          position = subst (λ f. walked.dma_off ≡ (start + f) % ring * 18) all at.position;
          in_ring = mod-lt (start + capture_frames) pos;
          period_fits = h.period_fits;
          period_offset = left;
        }),
        subst (λ f. InWritten urb dma ring start f walked.bytes) all at.written,
        rw (close_period_lem, period),
        rw (close_period_lem, period),
      )
