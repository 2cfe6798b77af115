-- ===== src/Codec/Decode.antt =====
-- The three decoders of ploytec_codec.c give the same frame.
use native.Mathlib.Decide.{dec_lt}
use alsa_jockey.Prelude.{ℕ, ◌+◌, ◌/◌, ◌≤◌, ◌<◌, ◌≡◌, arith, u8, fun_ext}
use alsa_jockey.Codec.Memory.{Buffer, IsBytes, get_unaligned_le64, get_unaligned_le32}
use alsa_jockey.Codec.Reference.Decode.{
  block_start, gathered-lt, decode_s24_3le, decode_s24_3le_lem,
}
use alsa_jockey.Codec.Lut64.{pack_bit_plane64, decode_s24_3le_pack64}
use alsa_jockey.Codec.Lut32.{pack_bit_plane32, decode_s24_3le_pack32}
use alsa_jockey.Codec.Gather.{gathered-plane, pack64-plane, pack32-plane}

module _ (dest src : Buffer) (x : ℕ) where
  pack64-outside : 18 ≤ x → decode_s24_3le_pack64 dest src x ≡ dest x
  unfolding decode_s24_3le_pack64
  pack64-outside h = ground arith

  pack64-inside :
      x < 18
      → decode_s24_3le_pack64 dest src x
        ≡ u8 (pack_bit_plane64 (get_unaligned_le64 src (block_start x)) (x / 6))
  unfolding decode_s24_3le_pack64 block_start
  pack64-inside h = ground arith

  pack32-outside : 18 ≤ x → decode_s24_3le_pack32 dest src x ≡ dest x
  unfolding decode_s24_3le_pack32
  pack32-outside h = ground arith

  pack32-inside :
      x < 18
      → decode_s24_3le_pack32 dest src x
        ≡ u8 (
            pack_bit_plane32
              (get_unaligned_le32 src (block_start x))
              (get_unaligned_le32 src (block_start x + 4))
              (x / 6))
  unfolding decode_s24_3le_pack32 block_start
  pack32-inside h = ground arith

module _ (dest src : Buffer) (bytes : IsBytes src) (x : ℕ) where
  pack64-byte : decode_s24_3le_pack64 dest src x ≡ decode_s24_3le dest src x
  pack64-byte = elim (dec_lt x 18) [
    | yes h ↦ ground (
      arith,
      pack64-inside dest src x h,
      pack64-plane src bytes (block_start x) (x / 6) (omega arith),
      gathered-plane src bytes x h,
      gathered-lt src x 8,
      decode_s24_3le_lem dest src x,
    )
    | no h ↦ ground (arith, pack64-outside dest src x, decode_s24_3le_lem dest src x)
  ]

  pack32-byte : decode_s24_3le_pack32 dest src x ≡ decode_s24_3le dest src x
  pack32-byte = elim (dec_lt x 18) [
    | yes h ↦ ground (
      arith,
      pack32-inside dest src x h,
      pack32-plane src bytes (block_start x) (x / 6) (omega arith),
      gathered-plane src bytes x h,
      gathered-lt src x 8,
      decode_s24_3le_lem dest src x,
    )
    | no h ↦ ground (arith, pack32-outside dest src x, decode_s24_3le_lem dest src x)
  ]

-- On a buffer of bytes the 64-bit decoder leaves the same destination as the reference decoder, at
-- every offset.
pub decode_pack64-reference :
    (dest src : Buffer) → IsBytes src → decode_s24_3le_pack64 dest src ≡ decode_s24_3le dest src
decode_pack64-reference dest src bytes = fun_ext (pack64-byte dest src bytes)

-- On a buffer of bytes the 32-bit decoder leaves the same destination as the reference decoder, at
-- every offset.
pub decode_pack32-reference :
    (dest src : Buffer) → IsBytes src → decode_s24_3le_pack32 dest src ≡ decode_s24_3le dest src
decode_pack32-reference dest src bytes = fun_ext (pack32-byte dest src bytes)
