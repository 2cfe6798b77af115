-- ===== src/Codec/Gather.antt =====
-- The gathers `pack_bit_plane64` and `pack_bit_plane32` give the byte that the reference's chain of
-- `|=` gives, and so the optimised decoders give the reference's frame.
use native.Mathlib.Nat.{add-zero}
use alsa_jockey.Prelude.{
  ℕ, zero, suc, ◌+◌, ◌*◌, ◌/◌, ◌<◌, ◌≡◌, refl, true, List, [], ◌∷◌, ◌&&◌, arith, u8, u32, u64, ◌==◌,
  ◌<<<◌, ◌>>>◌, passes_below, passes_below_sound, bit_or,
}
use alsa_jockey.Codec.Memory.{Buffer, IsBytes, get_unaligned_le64, get_unaligned_le32}
use alsa_jockey.Codec.Reference.Decode.{wire_bit, block_start, gathered}
use alsa_jockey.Codec.Lut64.{pack_bit_plane64}
use alsa_jockey.Codec.Lut32.{pack_bit_plane32}
use alsa_jockey.Codec.Words.{word, bit, AreBytes, mask_lem, or_bits, or_table, multiplier_table}

wire_bit_table :
    passes_below 256
      (λ v. (wire_bit v 0 == bit 0 v) && (wire_bit v 1 == bit 1 v) && (wire_bit v 2 == bit 2 v))
    ≡ true
unfolding passes_below
wire_bit_table = refl

wire_bit_lem : (c v : ℕ) → c < 3 → v < 256 → wire_bit v c ≡ bit c v
wire_bit_lem zero v hc hv = ground (arith, passes_below_sound _ 256 v hv wire_bit_table)
wire_bit_lem (suc zero) v hc hv = ground (arith, passes_below_sound _ 256 v hv wire_bit_table)
wire_bit_lem (suc (suc zero)) v hc hv = ground (arith, passes_below_sound _ 256 v hv wire_bit_table)
wire_bit_lem (suc (suc (suc c))) v hc hv = absurd (omega arith)

-- Eight bits are those of one byte.
module _ (a b c d e f g h : ℕ) where
  abbrev pub byte : ℕ
  byte = 128 * a + 64 * b + 32 * c + 16 * d + 8 * e + 4 * f + 2 * g + h

  abbrev AreBits : Type 0
  AreBits = (a < 2) × (b < 2) × (c < 2) × (d < 2) × (e < 2) × (f < 2) × (g < 2) × (h < 2)

  byte_bits :
      AreBits
      → (byte < 256)
        × (bit 7 byte ≡ a)
        × (bit 6 byte ≡ b)
        × (bit 5 byte ≡ c)
        × (bit 4 byte ≡ d)
        × (bit 3 byte ≡ e)
        × (bit 2 byte ≡ f)
        × (bit 1 byte ≡ g)
        × (bit 0 byte ≡ h)
  byte_bits hs = omega arith

  or_bits_lem : AreBits → or_bits a b c d e f g h ≡ byte
  or_bits_lem hs =
      ground (arith, byte_bits hs, passes_below_sound _ 256 byte (byte_bits hs).0 or_table)

  pack64_lem :
      AreBits
      → u8 (u64 (word (a ∷ b ∷ c ∷ d ∷ e ∷ f ∷ g ∷ h ∷ []) * 0x8040201008040201) >>> 56) ≡ byte
  pack64_lem hs =
      ground (arith, byte_bits hs, passes_below_sound _ 256 byte (byte_bits hs).0 multiplier_table)

  pack32_lem :
      AreBits
      → u8 (
          bit_or
            (u8 (u32 (word (a ∷ b ∷ c ∷ d ∷ []) * 0x08040201) >>> 24) <<< 4)
            (u8 (u32 (word (e ∷ f ∷ g ∷ h ∷ []) * 0x08040201) >>> 24)))
        ≡ byte
  pack32_lem hs =
      ground (arith, byte_bits hs, passes_below_sound _ 256 byte (byte_bits hs).0 multiplier_table)

-- The eight bytes of a block, and the bits of one plane of them.
abbrev block : Buffer → ℕ → List ℕ
block src s =
    src s
    ∷ src (s + 1)
    ∷ src (s + 2)
    ∷ src (s + 3)
    ∷ src (s + 4)
    ∷ src (s + 5)
    ∷ src (s + 6)
    ∷ src (s + 7)
    ∷ []

module _ (src : Buffer) (bytes : IsBytes src) where
  abbrev pub plane_byte : ℕ → ℕ → ℕ
  plane_byte s c =
      byte (bit c (src s)) (bit c (src (s + 1))) (bit c (src (s + 2))) (bit c (src (s + 3)))
        (bit c (src (s + 4))) (bit c (src (s + 5))) (bit c (src (s + 6))) (bit c (src (s + 7)))

  or_bits-plane :
      (s c : ℕ)
      → or_bits
          (bit c (src s))
          (bit c (src (s + 1)))
          (bit c (src (s + 2)))
          (bit c (src (s + 3)))
          (bit c (src (s + 4)))
          (bit c (src (s + 5)))
          (bit c (src (s + 6)))
          (bit c (src (s + 7)))
        ≡ plane_byte s c
  or_bits-plane s c = or_bits_lem _ _ _ _ _ _ _ _ (omega arith)

  pub gathered-plane : (k : ℕ) → k < 18 → gathered src k 8 ≡ plane_byte (block_start k) (k / 6)
  unfolding gathered
  gathered-plane k h =
      let s = block_start k in
      let c = k / 6 in
      let hc : c < 3 = omega arith in
      rw
        (
          add-zero,
          wire_bit_lem c (src s) hc (bytes s),
          wire_bit_lem c (src (s + 1)) hc (bytes (s + 1)),
          wire_bit_lem c (src (s + 2)) hc (bytes (s + 2)),
          wire_bit_lem c (src (s + 3)) hc (bytes (s + 3)),
          wire_bit_lem c (src (s + 4)) hc (bytes (s + 4)),
          wire_bit_lem c (src (s + 5)) hc (bytes (s + 5)),
          wire_bit_lem c (src (s + 6)) hc (bytes (s + 6)),
          wire_bit_lem c (src (s + 7)) hc (bytes (s + 7)),
        )
        (or_bits-plane s c)

  block-AreBytes : (s : ℕ) → AreBytes (block src s)
  block-AreBytes s = omega (
    arith,
    bytes s,
    bytes (s + 1),
    bytes (s + 2),
    bytes (s + 3),
    bytes (s + 4),
    bytes (s + 5),
    bytes (s + 6),
    bytes (s + 7),
  )

  le64-block : (s : ℕ) → get_unaligned_le64 src s ≡ word (block src s)
  unfolding get_unaligned_le64
  le64-block s = omega arith

  pub pack64-plane :
      (s c : ℕ) → c < 3 → pack_bit_plane64 (get_unaligned_le64 src s) c ≡ plane_byte s c
  unfolding pack_bit_plane64
  pack64-plane s c hc =
      rw (le64-block s, mask_lem c (block src s) hc (block-AreBytes s))
        (pack64_lem _ _ _ _ _ _ _ _ (omega arith))

  half-AreBytes : (s : ℕ) → AreBytes (src s ∷ src (s + 1) ∷ src (s + 2) ∷ src (s + 3) ∷ [])
  half-AreBytes s = omega (arith, block-AreBytes s)

  other_half-AreBytes :
      (s : ℕ) → AreBytes (src (s + 4) ∷ src (s + 5) ∷ src (s + 6) ∷ src (s + 7) ∷ [])
  other_half-AreBytes s = omega (arith, block-AreBytes s)

  le32-half :
      (s : ℕ)
      → get_unaligned_le32 src s ≡ word (src s ∷ src (s + 1) ∷ src (s + 2) ∷ src (s + 3) ∷ [])
  unfolding get_unaligned_le32
  le32-half s = omega arith

  le32-other_half :
      (s : ℕ)
      → get_unaligned_le32 src (s + 4)
        ≡ word (src (s + 4) ∷ src (s + 5) ∷ src (s + 6) ∷ src (s + 7) ∷ [])
  unfolding get_unaligned_le32
  le32-other_half s = ground arith

  pub pack32-plane :
      (s c : ℕ)
      → c < 3
      → pack_bit_plane32 (get_unaligned_le32 src s) (get_unaligned_le32 src (s + 4)) c
        ≡ plane_byte s c
  unfolding pack_bit_plane32
  pack32-plane s c hc =
      rw
        (
          le32-half s,
          le32-other_half s,
          mask_lem c (src s ∷ src (s + 1) ∷ src (s + 2) ∷ src (s + 3) ∷ []) hc (half-AreBytes s),
          mask_lem c (src (s + 4) ∷ src (s + 5) ∷ src (s + 6) ∷ src (s + 7) ∷ []) hc
              (other_half-AreBytes s),
        )
        (pack32_lem _ _ _ _ _ _ _ _ (omega arith))
