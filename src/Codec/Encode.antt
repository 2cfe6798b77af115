-- ===== src/Codec/Encode.antt =====
-- The 64-bit encoder of ploytec_codec.c gives the reference's frame.
use native.Mathlib.Decide.{dec_lt}
use alsa_jockey.Prelude.{
  ℕ, zero, suc, ◌+◌, ◌-◌, ◌*◌, ◌/◌, ◌%◌, ◌≤◌, ◌<◌, ◌≡◌, refl, arith, fun_ext, for_range_inv, bit_or,
  bit_or_byte, bit_and-one, ◌>>>◌, List, length,
}
use alsa_jockey.Codec.Memory.{Buffer, IsBytes, byte_of, put_unaligned_le64_lem}
use alsa_jockey.Codec.Reference.{
  pair_bits, block_source, encode_s24_3le, encode_s24_3le_lem, wire_byte_at,
}
use alsa_jockey.Codec.Lut64.{
  Table, spread_64, pair_word, encode_s24_3le_lut64, init_bit_spread_lut64, entry,
}
use alsa_jockey.Codec.Words.{word, bit, all_bits, spread_lem}

pub bit_or_pair : (m n : ℕ) → m < 2 → n < 2 → bit_or m (2 * n) ≡ m + 2 * n
bit_or_pair zero zero hm hn = refl
bit_or_pair zero (suc zero) hm hn = refl
bit_or_pair (suc zero) zero hm hn = refl
bit_or_pair (suc zero) (suc zero) hm hn = refl
bit_or_pair (suc (suc m)) n hm hn = absurd (omega arith)
bit_or_pair zero (suc (suc n)) hm hn = absurd (omega arith)
bit_or_pair (suc zero) (suc (suc n)) hm hn = absurd (omega arith)

pub pair_bits_lem : (a b i : ℕ) → pair_bits a b i ≡ bit (7 - i) a + 2 * bit (7 - i) b
pair_bits_lem a b i = ground (
  arith,
  bit_and-one (a >>> (7 - i)),
  bit_and-one (b >>> (7 - i)),
  bit_or_pair (bit (7 - i) a) (bit (7 - i) b),
)

pub pair_bits-lt : (a b i : ℕ) → pair_bits a b i < 4
pair_bits-lt a b i = omega (arith, pair_bits_lem a b i)

-- `bits | (bits' << 1)` word by word, where each byte holds one bit.
abbrev pub AreBits : List ℕ → Type 0
AreBits List.[] = Unit {0}
AreBits (List.◌∷◌ x xs) = (x < 2) × AreBits xs

pub interleave :
    (xs ys : List ℕ)
    → length xs ≡ length ys
    → AreBits xs
    → AreBits ys
    → bit_or (word xs) (2 * word ys) ≡ word xs + 2 * word ys
interleave List.[] List.[] e hx hy = refl
interleave List.[] (List.◌∷◌ y ys) e hx hy = absurd (omega arith)
interleave (List.◌∷◌ x xs) List.[] e hx hy = absurd (omega arith)
interleave (List.◌∷◌ x xs) (List.◌∷◌ y ys) e hx hy = ground (
  arith,
  bit_or_byte x (2 * y) (word xs) (2 * word ys),
  bit_or_pair x y hx.0 hy.0,
  interleave xs ys (omega arith) hx.1 hy.1,
)

-- The word that the 64-bit encoder stores for two source bytes.
module _ (spread : Table) (a b : ℕ) (ha : a < 256) (hb : b < 256) where
  pair_word-sum :
      spread a ≡ spread_64 a
      → spread b ≡ spread_64 b
      → pair_word spread a b ≡ word (all_bits a) + 2 * word (all_bits b)
  pair_word-sum ea eb = ground (
    arith,
    (spread_lem a ha).0,
    (spread_lem b hb).0,
    interleave (all_bits a) (all_bits b) refl (omega arith) (omega arith),
  )

  pair_word-byte :
      (i : ℕ)
      → i < 8
      → spread a ≡ spread_64 a
      → spread b ≡ spread_64 b
      → byte_of (pair_word spread a b) i ≡ pair_bits a b i
  pair_word-byte i hi ea eb = rw (pair_word-sum ea eb, pair_bits_lem a b i) (digit i hi)
    where
      digit :
          (i : ℕ)
          → i < 8
          → byte_of (word (all_bits a) + 2 * word (all_bits b)) i
            ≡ bit (7 - i) a + 2 * bit (7 - i) b
      digit zero h = omega arith
      digit (suc zero) h = omega arith
      digit (suc (suc zero)) h = omega arith
      digit (suc (suc (suc zero))) h = omega arith
      digit (suc (suc (suc (suc zero)))) h = omega arith
      digit (suc (suc (suc (suc (suc zero))))) h = omega arith
      digit (suc (suc (suc (suc (suc (suc zero)))))) h = omega arith
      digit (suc (suc (suc (suc (suc (suc (suc zero))))))) h = omega arith
      digit (suc (suc (suc (suc (suc (suc (suc (suc i)))))))) h = absurd (omega arith)

module _ (spread : Table) (dest src : Buffer) (x : ℕ) where
  lut64-outside : 48 ≤ x → encode_s24_3le_lut64 spread dest src x ≡ dest x
  unfolding encode_s24_3le_lut64
  lut64-outside h = simp put_unaligned_le64_lem (ground arith)

  lut64-inside :
      x < 48
      → encode_s24_3le_lut64 spread dest src x
        ≡ byte_of
            (pair_word spread (src (block_source (x / 8))) (src (block_source (x / 8) + 6)))
            (x % 8)
  unfolding encode_s24_3le_lut64 block_source
  lut64-inside h = simp put_unaligned_le64_lem (ground arith)

-- The table holds the spread of every byte.
abbrev pub IsSpread64 : Table → Type 0
IsSpread64 t = (b : ℕ) → b < 256 → t b ≡ spread_64 b

-- With the table filled, the 64-bit encoder leaves on a buffer of bytes the same destination as the
-- reference encoder, at every offset.
pub encode_lut64-reference :
    (t : Table) (dest src : Buffer)
    → IsSpread64 t
    → IsBytes src
    → encode_s24_3le_lut64 t dest src ≡ encode_s24_3le dest src
encode_lut64-reference t dest src filled bytes = fun_ext λ x. at x
  where
    at : (x : ℕ) → encode_s24_3le_lut64 t dest src x ≡ encode_s24_3le dest src x
    at x = elim (dec_lt x 48) [
      | yes h ↦
          let k = block_source (x / 8) in
          ground (
            arith,
            lut64-inside t dest src x h,
            pair_word-byte t (src k) (src (k + 6)) (bytes k) (bytes (k + 6)) (x % 8) (omega arith)
                (filled (src k) (bytes k)) (filled (src (k + 6)) (bytes (k + 6))),
            pair_bits-lt (src k) (src (k + 6)) (x % 8),
            encode_s24_3le_lem dest src x,
            wire_byte_at src (x / 8) (x % 8) x (omega arith) (omega arith) (omega arith),
          )
      | no h ↦ ground (arith, lut64-outside t dest src x, encode_s24_3le_lem dest src x)
    ]

-- Building the table fills it, whatever it held.
pub init_bit_spread_lut64-IsSpread64 : (t : Table) → IsSpread64 (init_bit_spread_lut64 t)
unfolding init_bit_spread_lut64
init_bit_spread_lut64-IsSpread64 t =
    for_range_inv (λ i s. (b : ℕ) → b < i → s b ≡ spread_64 b) (λ b s. entry s b (spread_64 b)) 256
      (λ i s hi h b hb. ground (arith, h b)) 256 0 t refl (λ b h. absurd (omega arith))
