-- ===== src/Stream/Sizing.antt =====
-- How many packets a URB carries: `jockey3_pcm_set_n` (jockey3.c). `ilog2` is the kernel's.
use native.Mathlib.Decide.{dec_lt}
use native.Mathlib.Nat.{pow-le-pow_right, pow-suc}
use alsa_jockey.Prelude.{
  ℕ, ◌+◌, ◌*◌, ◌/◌, ◌%◌, ◌^◌, ◌≤◌, ◌<◌, ◌≡◌, refl, arith, max, ap, ◌∙◌, ◌⊎◌, inl, inr,
}
use alsa_jockey.Recovery.Clock.{clamp}
use alsa_jockey.Stream.State.{
  Chip, Direction, playback_direction, capture_direction, get_pcm_urb_stream, set_pcm_urb_stream,
}

-- Bytes of PCM in one packet.
abbrev pub pkt_bytes : Direction → ℕ
pkt_bytes playback_direction = 120
pkt_bytes capture_direction = 144

-- `JOCKEY3_PLAYBACK_N` and `JOCKEY3_CAPTURE_N`.
abbrev pub max_n : Direction → ℕ
max_n playback_direction = 8
max_n capture_direction = 8

-- `ilog2`, the logarithm to base 2 rounded down.
abbrev pub IsIlog2 : (ℕ → ℕ) → Type 0
IsIlog2 ilog2 = (n : ℕ) → 0 < n → (2 ^ ilog2 n ≤ n) × (n < 2 ^ (ilog2 n + 1))

power-inj_lt : (a b : ℕ) → 2 ^ a < 2 ^ b → a < b
power-inj_lt a b h = elim (dec_lt a b) [
  | yes k ↦ k
  | no k ↦ omega (arith, pow-le-pow_right {n = 2} (omega arith) {i = b} {j = a} (omega arith))
]

pow-suc_two : (k : ℕ) → 2 ^ (k + 1) ≡ 2 * 2 ^ k
pow-suc_two k = ap (λ (t : ℕ). 2 ^ t) (omega arith) ∙ pow-suc 2 k ∙ omega arith

module _ (ilog2 : ℕ → ℕ) where
  unfoldable pub pcm_set_n : Direction → ℕ → Chip → Chip
  pcm_set_n d period_bytes c =
      let n = max (period_bytes / pkt_bytes d) 1 in
      let n_shift = clamp (ilog2 n % 256) 0 (ilog2 (max_n d)) in
      set_pcm_urb_stream c d
        (record (get_pcm_urb_stream c d) { n_shift = n_shift; n_pkts = 2 ^ n_shift })

  ilog2-eight : IsIlog2 ilog2 → ilog2 8 ≡ 3
  ilog2-eight h =
      let (lo, hi) = h 8 (omega arith) in
      omega (
        arith,
        power-inj_lt (ilog2 8) 4 (omega (arith, lo)),
        power-inj_lt 3 (ilog2 8 + 1) (omega (arith, hi)),
      )

  -- The shift that a number of packets `n` gives.
  shift_lem :
      (n : ℕ)
      → IsIlog2 ilog2
      → 0 < n
      → n < 2 ^ 32
      → let k = clamp (ilog2 n % 256) 0 (ilog2 8) in
        (2 ^ k ≤ 8) × (2 ^ k ≤ n) × (2 ^ k ≡ 8 ⊎ n < 2 * 2 ^ k)
  shift_lem n h pos fits =
      let (lo, hi) = h n pos in
      let small = power-inj_lt (ilog2 n) 32 (omega (arith, lo)) in
      let eight = ilog2-eight h in
      let bound : clamp (ilog2 n % 256) 0 (ilog2 8) ≡ clamp (ilog2 n) 0 3 = ground (arith, eight) in
      rw bound (elim (dec_lt 3 (ilog2 n)) [
        | yes big ↦
            let three : clamp (ilog2 n) 0 3 ≡ 3 = ground arith in
            rw three (
              omega arith,
              omega (
                arith,
                lo,
                pow-le-pow_right {n = 2} (omega arith) {i = 3} {j = ilog2 n} (omega arith),
              ),
              inl (omega arith),
            )
        | no le ↦
            let same : clamp (ilog2 n) 0 3 ≡ ilog2 n = ground arith in
            rw same (
              pow-le-pow_right {n = 2} (omega arith) {i = ilog2 n} {j = 3} (omega arith),
              lo,
              inr (omega (arith, hi, pow-suc_two (ilog2 n))),
            )
      ])

  -- Given a 32-bit period size, a URB carries 2^n_shift packets, at most 8, that hold at most one
  -- period (where a period holds a packet at all); and no larger power of two would do.
  pub pcm_set_n_lem :
      (d : Direction) (period_bytes : ℕ) (c : Chip)
      → IsIlog2 ilog2
      → period_bytes < 2 ^ 32
      → let s = get_pcm_urb_stream (pcm_set_n d period_bytes c) d in
        (s.n_pkts ≡ 2 ^ s.n_shift)
        × (s.n_pkts ≤ max_n d)
        × (s.n_pkts * pkt_bytes d ≤ max period_bytes (pkt_bytes d))
        × (s.n_pkts ≡ max_n d ⊎ period_bytes < 2 * s.n_pkts * pkt_bytes d)
  unfolding pcm_set_n
  pcm_set_n_lem playback_direction period_bytes c h fits =
      let (a, b, e) = shift_lem (max (period_bytes / 120) 1) h (omega arith) (omega arith) in
      (refl, a, omega (arith, b), elim e [ inl k ↦ inl k | inr k ↦ inr (omega (arith, k)) ])
  pcm_set_n_lem capture_direction period_bytes c h fits =
      let (a, b, e) = shift_lem (max (period_bytes / 144) 1) h (omega arith) (omega arith) in
      (refl, a, omega (arith, b), elim e [ inl k ↦ inl k | inr k ↦ inr (omega (arith, k)) ])
