-- ===== src/Codec/Encode32.antt =====
-- The 32-bit encoder of ploytec_codec.c gives the reference's frame.
use native.Mathlib.Decide.{dec_lt}
use alsa_jockey.Prelude.{
  ℕ, zero, suc, ◌+◌, ◌-◌, ◌*◌, ◌/◌, ◌%◌, ◌≤◌, ◌<◌, ◌≡◌, refl, arith, ltb, if◌then◌else◌, fun_ext,
  for_range_inv,
}
use alsa_jockey.Codec.Memory.{Buffer, IsBytes, byte_of, put_unaligned_le32_lem}
use alsa_jockey.Codec.Reference.{
  pair_bits, block_source, encode_s24_3le, encode_s24_3le_lem, wire_byte_at,
}
use alsa_jockey.Codec.Encode.{pair_bits_lem, pair_bits-lt, interleave}
use alsa_jockey.Codec.Lut64.{Table}
use alsa_jockey.Codec.Lut32.{
  Tables32, spread_32_high, spread_32_low, pair_word32, encode_s24_3le_lut32, init_bit_spread_lut32,
  init_round32,
}
use alsa_jockey.Codec.Words.{word, bit, high_nibble, low_nibble, spread_lem}

-- Bytes of the words that the 32-bit encoder stores for two source bytes.
module _ (spread : Table) (a b : ℕ) (ha : a < 256) (hb : b < 256) where
  high-sum :
      spread a ≡ spread_32_high a
      → spread b ≡ spread_32_high b
      → pair_word32 spread a b ≡ word (high_nibble a) + 2 * word (high_nibble b)
  high-sum ea eb = ground (
    arith,
    (spread_lem a ha).1,
    (spread_lem b hb).1,
    interleave (high_nibble a) (high_nibble b) refl (omega arith) (omega arith),
  )

  low-sum :
      spread a ≡ spread_32_low a
      → spread b ≡ spread_32_low b
      → pair_word32 spread a b ≡ word (low_nibble a) + 2 * word (low_nibble b)
  low-sum ea eb = ground (
    arith,
    (spread_lem a ha).2,
    (spread_lem b hb).2,
    interleave (low_nibble a) (low_nibble b) refl (omega arith) (omega arith),
  )

  high-byte :
      (i : ℕ)
      → i < 4
      → spread a ≡ spread_32_high a
      → spread b ≡ spread_32_high b
      → byte_of (pair_word32 spread a b) i ≡ pair_bits a b i
  high-byte i hi ea eb = rw (high-sum ea eb, pair_bits_lem a b i) (digit i hi)
    where
      digit :
          (i : ℕ)
          → i < 4
          → byte_of (word (high_nibble a) + 2 * word (high_nibble b)) i
            ≡ bit (7 - i) a + 2 * bit (7 - i) b
      digit zero h = omega arith
      digit (suc zero) h = omega arith
      digit (suc (suc zero)) h = omega arith
      digit (suc (suc (suc zero))) h = omega arith
      digit (suc (suc (suc (suc i)))) h = absurd (omega arith)

  low-byte :
      (i : ℕ)
      → i < 4
      → spread a ≡ spread_32_low a
      → spread b ≡ spread_32_low b
      → byte_of (pair_word32 spread a b) i ≡ pair_bits a b (4 + i)
  low-byte i hi ea eb = rw (low-sum ea eb, pair_bits_lem a b (4 + i)) (digit i hi)
    where
      digit :
          (i : ℕ)
          → i < 4
          → byte_of (word (low_nibble a) + 2 * word (low_nibble b)) i
            ≡ bit (7 - (4 + i)) a + 2 * bit (7 - (4 + i)) b
      digit zero h = omega arith
      digit (suc zero) h = omega arith
      digit (suc (suc zero)) h = omega arith
      digit (suc (suc (suc zero))) h = omega arith
      digit (suc (suc (suc (suc i)))) h = absurd (omega arith)

module _ (t : Tables32) (dest src : Buffer) (x : ℕ) where
  lut32-outside : 48 ≤ x → encode_s24_3le_lut32 t dest src x ≡ dest x
  unfolding encode_s24_3le_lut32
  lut32-outside h = simp put_unaligned_le32_lem (ground arith)

  lut32-inside :
      (b : ℕ)
      → b < 6
      → x / 8 ≡ b
      → encode_s24_3le_lut32 t dest src x ≡ (
          let k = block_source b in
          if ltb (x % 8) 4
          then byte_of (pair_word32 t.high (src k) (src (k + 6))) (x % 8)
          else byte_of (pair_word32 t.low (src k) (src (k + 6))) (x % 8 - 4))
  unfolding encode_s24_3le_lut32 block_source
  lut32-inside zero h e = simp put_unaligned_le32_lem (ground arith)
  lut32-inside (suc zero) h e = simp put_unaligned_le32_lem (ground arith)
  lut32-inside (suc (suc zero)) h e = simp put_unaligned_le32_lem (ground arith)
  lut32-inside (suc (suc (suc zero))) h e = simp put_unaligned_le32_lem (ground arith)
  lut32-inside (suc (suc (suc (suc zero)))) h e = simp put_unaligned_le32_lem (ground arith)
  lut32-inside (suc (suc (suc (suc (suc zero))))) h e = simp put_unaligned_le32_lem (ground arith)
  lut32-inside (suc (suc (suc (suc (suc (suc b)))))) h e = absurd (omega arith)

-- The tables hold the spread of every byte, in two halves.
abbrev pub IsSpread32 : Tables32 → Type 0
IsSpread32 t = (b : ℕ) → b < 256 → (t.high b ≡ spread_32_high b) × (t.low b ≡ spread_32_low b)

-- With the tables filled, the 32-bit encoder leaves on a buffer of bytes the same destination as
-- the reference encoder, at every offset.
pub encode_lut32-reference :
    (t : Tables32) (dest src : Buffer)
    → IsSpread32 t
    → IsBytes src
    → encode_s24_3le_lut32 t dest src ≡ encode_s24_3le dest src
encode_lut32-reference t dest src filled bytes = fun_ext λ x. at x
  where
    at : (x : ℕ) → encode_s24_3le_lut32 t dest src x ≡ encode_s24_3le dest src x
    at x = elim (dec_lt x 48) [
      | yes h ↦
          let k = block_source (x / 8) in
          let a = src k in
          let b = src (k + 6) in
          let fa = filled a (bytes k) in
          let fb = filled b (bytes (k + 6)) in
          elim (dec_lt (x % 8) 4) [
            | yes first ↦ ground (
              arith,
              lut32-inside t dest src x (x / 8) (omega arith) refl,
              high-byte t.high a b (bytes k) (bytes (k + 6)) (x % 8) first fa.0 fb.0,
              pair_bits-lt a b (x % 8),
              encode_s24_3le_lem dest src x,
              wire_byte_at src (x / 8) (x % 8) x (omega arith) (omega arith) (omega arith),
            )
            | no last ↦ ground (
              arith,
              lut32-inside t dest src x (x / 8) (omega arith) refl,
              low-byte t.low a b (bytes k) (bytes (k + 6)) (x % 8 - 4) (omega arith) fa.1 fb.1,
              pair_bits-lt a b (x % 8),
              encode_s24_3le_lem dest src x,
              wire_byte_at src (x / 8) (x % 8) x (omega arith) (omega arith) (omega arith),
            )
          ]
      | no h ↦ ground (arith, lut32-outside t dest src x, encode_s24_3le_lem dest src x)
    ]

-- Building the tables fills them, whatever they held.
pub init_bit_spread_lut32-IsSpread32 : (t : Tables32) → IsSpread32 (init_bit_spread_lut32 t)
unfolding init_bit_spread_lut32
init_bit_spread_lut32-IsSpread32 t =
    for_range_inv
      (λ i s. (b : ℕ) → b < i → (s.high b ≡ spread_32_high b) × (s.low b ≡ spread_32_low b))
      init_round32 256 (λ i s hi h b hb. ground (arith, h b)) 256 0 t refl
      (λ b h. absurd (omega arith))
