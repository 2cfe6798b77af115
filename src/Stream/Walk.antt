-- ===== src/Stream/Walk.antt =====
-- The loop that `jockey3_process_out_packet` and `jockey3_process_in_packet` (jockey3.c) share: it
-- copies the frames of one packet, in batches that stop at the end of ALSA's ring buffer.
use native.Mathlib.Decide.{dec_lt}
use native.Mathlib.Nat.{mod-lt, add_assoc}
use alsa_jockey.Prelude.{
  ℕ, zero, suc, ◌+◌, ◌-◌, ◌*◌, ◌/◌, ◌%◌, ◌^◌, ◌≤◌, ◌<◌, ◌≡◌, refl, arith, ltb, leb, ◌==◌,
  if◌then◌else◌, u32, ap,
}

-- The loop's variables: `f`, the offsets `dma_off` and `period_off`, and the bytes written so far.
pub record Walk {ℓ} (S : Type ℓ) : Type ℓ where
  pub f : ℕ
  pub dma_off : ℕ
  pub period_off : ℕ
  pub bytes : S

-- `unsigned int` a - b.
abbrev pub sub32 : ℕ → ℕ → ℕ
sub32 a b = (a + 2 ^ 32 - b) % 2 ^ 32

-- `frames` per packet, the ring's size in bytes, the bytes of one PCM frame, and the batch call,
-- which is given `f`, `dma_off` and the number of frames.
module _ {ℓ} {S : Type ℓ} (frames buffer_size frame_size : ℕ) (copy : ℕ → ℕ → ℕ → S → S) where
  -- `frames_in_batch`, which respects the wrap-around.
  unfoldable pub frames_in_batch : ℕ → ℕ → ℕ
  frames_in_batch f dma_off =
      let bytes_avail = sub32 buffer_size dma_off in
      if ltb bytes_avail (u32 ((frames - f) * frame_size))
      then bytes_avail / frame_size
      else frames - f

  unfoldable pub advance_walk : Walk S → ℕ → Walk S
  advance_walk w n =
      let off = u32 (w.dma_off + n * frame_size) in
      record {
        f = w.f + n;
        dma_off = if leb buffer_size off then sub32 off buffer_size else off;
        period_off = u32 (w.period_off + n * frame_size);
        bytes = copy w.f w.dma_off n w.bytes;
      }

  -- Each round copies at least one frame, so `frames` rounds of fuel are enough.
  unfoldable pub walk : ℕ → Walk S → Walk S
  unfolding frames_in_batch advance_walk
  walk zero w = w
  walk (suc fuel) w =
      let n = frames_in_batch w.f w.dma_off in
      let rest = walk fuel (advance_walk w n) in
      if ltb w.f frames then (if n == 0 then w else rest) else w

-- Facts on whole frames in bytes.
mul-div : (a b : ℕ) → 0 < b → a * b / b ≡ a
mul-div a b h = grind arith

mul-lt : (a b c : ℕ) → 0 < c → a * c < b * c → a < b
mul-lt a b c h k = grind arith

mul_mono : (a b c : ℕ) → a ≤ b → a * c ≤ b * c
mul_mono a b c h = grind arith

mul_mono_lt : (a b c : ℕ) → 0 < c → a < b → a * c < b * c
mul_mono_lt a b c h k = grind arith

sub-mul : (a b c : ℕ) → b ≤ a → (a - b) * c ≡ a * c - b * c
sub-mul a b c h = grind arith

pub mod_step : (a n b q : ℕ) → 0 < b → a % b ≡ q → q + n < b → (a + n) % b ≡ q + n
mod_step a n b q pos e h = grind arith

mod_wrap : (a n b q : ℕ) → 0 < b → a % b ≡ q → q + n ≡ b → (a + n) % b ≡ 0
mod_wrap a n b q pos e h = grind arith

-- The ring holds `ring` whole frames.
pub record IsRing (frames buffer_size frame_size ring : ℕ) : Type 0 where
  pub some_bytes : 0 < frame_size
  pub some_frames : 0 < ring
  pub whole : buffer_size ≡ ring * frame_size
  pub buffer_fits : buffer_size < 2 ^ 31
  pub packet_fits : frames * frame_size < 2 ^ 31

module _ {ℓ} {S : Type ℓ} (frames buffer_size frame_size ring : ℕ) (copy : ℕ → ℕ → ℕ → S → S)
    (h : IsRing frames buffer_size frame_size ring) where
  batch_lem :
      (f q : ℕ)
      → f < frames
      → q < ring
      → let n = frames_in_batch frames buffer_size frame_size copy f (q * frame_size) in
        (0 < n) × (f + n ≤ frames) × (q + n ≤ ring)
  unfolding frames_in_batch
  batch_lem f q hf hq = ground (
    arith,
    h,
    mul_mono_lt q ring frame_size h.some_bytes hq,
    sub-mul ring q frame_size (omega arith),
    mul_mono (frames - f) frames frame_size (omega arith),
    mul-div (ring - q) frame_size h.some_bytes,
    mul-lt (ring - q) (frames - f) frame_size h.some_bytes,
    mul_mono_lt (ring - q) (frames - f) frame_size h.some_bytes,
  )

  offset_lem :
      (w : Walk S) (q n a : ℕ)
      → w.dma_off ≡ q * frame_size
      → a % ring ≡ q
      → q + n ≤ ring
      → (advance_walk frames buffer_size frame_size copy w n).dma_off ≡ (a + n) % ring * frame_size
  unfolding advance_walk
  offset_lem w q n a e at hn = elim (dec_lt (q + n) ring) [
    | yes inside ↦
        rw (mod_step a n ring q h.some_frames at inside)
          (ground (arith, h, mul_mono_lt (q + n) ring frame_size h.some_bytes inside))
    | no end ↦
        let full : q + n ≡ ring = omega arith in
        rw (mod_wrap a n ring q h.some_frames at full)
          (ground (arith, h, ap (λ (t : ℕ). t * frame_size) full))
  ]

  walk-step :
      (fuel : ℕ) (w : Walk S)
      → let n = frames_in_batch frames buffer_size frame_size copy w.f w.dma_off in
        w.f < frames
        → 0 < n
        → walk frames buffer_size frame_size copy (suc fuel) w
          ≡ walk frames buffer_size frame_size copy fuel
              (advance_walk frames buffer_size frame_size copy w n)
  unfolding walk
  walk-step fuel w lt pos = ground arith

  walk_done :
      (fuel : ℕ) (w : Walk S) → frames ≤ w.f → walk frames buffer_size frame_size copy fuel w ≡ w
  unfolding walk
  walk_done zero w le = refl
  walk_done (suc fuel) w le = ground arith

module _ {ℓ κ} {S : Type ℓ} (frames ring frame_size start base : ℕ) (P : ℕ → S → Type κ) where
  -- The walk stands `w.f` frames behind the place where the packet began, and what it wrote is right.
  pub record IsAt (w : Walk S) : Type κ where
    pub inside : w.f ≤ frames
    pub position : w.dma_off ≡ (start + w.f) % ring * frame_size
    pub period : w.period_off ≡ base + w.f * frame_size
    pub written : P w.f w.bytes

module _ {ℓ κ} {S : Type ℓ} (frames buffer_size frame_size ring : ℕ) (copy : ℕ → ℕ → ℕ → S → S)
    (h : IsRing frames buffer_size frame_size ring) (start base : ℕ) (P : ℕ → S → Type κ)
    (keep : (f n : ℕ) (s : S)
      → f + n ≤ frames
      → (start + f) % ring + n ≤ ring
      → P f s
      → P (f + n) (copy f ((start + f) % ring * frame_size) n s))
    (base_fits : base + frames * frame_size < 2 ^ 32) where
  advance-IsAt :
      (w : Walk S) (n : ℕ)
      → w.f + n ≤ frames
      → (start + w.f) % ring + n ≤ ring
      → IsAt frames ring frame_size start base P w
      → IsAt frames ring frame_size start base P
          (advance_walk frames buffer_size frame_size copy w n)
  advance-IsAt w n hf hr at = record {
    inside = unfold advance_walk in hf;
    position =
        unfold advance_walk in
        rw (← add_assoc start w.f n) (
          offset_lem frames buffer_size frame_size ring copy h w ((start + w.f) % ring) n
            (start + w.f) at.position refl hr);
    period =
        let fits = mul_mono (w.f + n) frames frame_size hf in
        unfold advance_walk in omega (arith, at.period);
    written = unfold advance_walk in rw at.position (keep w.f n w.bytes hf hr at.written);
  }

  next_batch :
      (w : Walk S)
      → w.f < frames
      → IsAt frames ring frame_size start base P w
      → let n = frames_in_batch frames buffer_size frame_size copy w.f w.dma_off in
        (0 < n) × (w.f + n ≤ frames) × ((start + w.f) % ring + n ≤ ring)
  next_batch w more at = rw at.position (
      batch_lem frames buffer_size frame_size ring copy h w.f ((start + w.f) % ring) more
        (mod-lt _ h.some_frames))

  -- What holds of the bytes at frame `f` and is kept by each batch holds after the whole packet, and
  -- both offsets have moved on by the packet.
  pub walk_inv :
      (fuel : ℕ) (w : Walk S)
      → frames ≤ w.f + fuel
      → IsAt frames ring frame_size start base P w
      → let w' = walk frames buffer_size frame_size copy fuel w in
        (w'.f ≡ frames) × IsAt frames ring frame_size start base P w'
  walk_inv zero w hf at =
      rw (walk_done frames buffer_size frame_size ring copy h zero w (omega arith))
        (omega (arith, at.inside), at)
  walk_inv (suc fuel) w hf at = elim (dec_lt w.f frames) [
    | no done ↦
        rw (walk_done frames buffer_size frame_size ring copy h (suc fuel) w (omega arith))
          (omega (arith, at.inside), at)
    | yes more ↦
        let (pos, hf', hr) = next_batch w more at in
        rw (walk-step frames buffer_size frame_size ring copy h fuel w more pos) (
          walk_inv fuel
            (advance_walk frames buffer_size frame_size copy w
              (frames_in_batch frames buffer_size frame_size copy w.f w.dma_off))
            (unfold advance_walk in omega arith) (advance-IsAt w _ hf' hr at))
  ]
