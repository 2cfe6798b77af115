-- ===== src/Codec/Lut32.antt =====
-- The optimised encoder and decoder of a 32-bit build (ploytec_codec.c).
use alsa_jockey.Prelude.{ℕ, ◌-◌, ◌*◌, u8, u32, ◌<<<◌, ◌>>>◌, bit_and, bit_or, for_range}
use alsa_jockey.Codec.Memory.{Buffer, put_unaligned_le32, get_unaligned_le32, store}
use alsa_jockey.Codec.Lut64.{Table, entry}

-- `high_spread |= (u32)((b >> (7 - i)) & 1) << (i * 8)`, for the bits 7 to 4.
unfoldable pub spread_32_high : ℕ → ℕ
unfolding for_range
spread_32_high b =
    for_range 4 0 (λ i spread. bit_or spread (u32 (bit_and (b >>> (7 - i)) 1 <<< (i * 8)))) 0

-- `low_spread |= (u32)((b >> (3 - i)) & 1) << (i * 8)`, for the bits 3 to 0.
unfoldable pub spread_32_low : ℕ → ℕ
unfolding for_range
spread_32_low b =
    for_range 4 0 (λ i spread. bit_or spread (u32 (bit_and (b >>> (3 - i)) 1 <<< (i * 8)))) 0

-- `ploytec_bit_spread_32_high` and `ploytec_bit_spread_32_low`.
pub record Tables32 : Type 0 where
  pub high : Table
  pub low : Table

-- One round of the loop that builds the tables.
abbrev pub init_round32 : ℕ → Tables32 → Tables32
init_round32 b t = record {
  high = entry t.high b (spread_32_high b);
  low = entry t.low b (spread_32_low b);
}

unfoldable pub init_bit_spread_lut32 : Tables32 → Tables32
unfolding for_range
init_bit_spread_lut32 t = for_range 256 0 init_round32 t

-- `spread[a] | (spread[b] << 1)`.
abbrev pub pair_word32 : Table → ℕ → ℕ → ℕ
pair_word32 spread a b = bit_or (spread a) (u32 (spread b <<< 1))

unfoldable pub encode_s24_3le_lut32 : Tables32 → Buffer → Buffer → Buffer
encode_s24_3le_lut32 t dest src =
    let d = put_unaligned_le32 (pair_word32 t.high (src 2) (src 8)) 0 dest in
    let d = put_unaligned_le32 (pair_word32 t.low (src 2) (src 8)) 4 d in
    let d = put_unaligned_le32 (pair_word32 t.high (src 1) (src 7)) 8 d in
    let d = put_unaligned_le32 (pair_word32 t.low (src 1) (src 7)) 12 d in
    let d = put_unaligned_le32 (pair_word32 t.high (src 0) (src 6)) 16 d in
    let d = put_unaligned_le32 (pair_word32 t.low (src 0) (src 6)) 20 d in
    let d = put_unaligned_le32 (pair_word32 t.high (src 5) (src 11)) 24 d in
    let d = put_unaligned_le32 (pair_word32 t.low (src 5) (src 11)) 28 d in
    let d = put_unaligned_le32 (pair_word32 t.high (src 4) (src 10)) 32 d in
    let d = put_unaligned_le32 (pair_word32 t.low (src 4) (src 10)) 36 d in
    let d = put_unaligned_le32 (pair_word32 t.high (src 3) (src 9)) 40 d in
    put_unaligned_le32 (pair_word32 t.low (src 3) (src 9)) 44 d

unfoldable pub pack_bit_plane32 : ℕ → ℕ → ℕ → ℕ
pack_bit_plane32 high_4_bytes low_4_bytes bit_index =
    let high_masked = bit_and (high_4_bytes >>> bit_index) 0x01010101 in
    let low_masked = bit_and (low_4_bytes >>> bit_index) 0x01010101 in
    let high_bits = u8 (u32 (high_masked * 0x08040201) >>> 24) in
    let low_bits = u8 (u32 (low_masked * 0x08040201) >>> 24) in
    u8 (bit_or (high_bits <<< 4) low_bits)

unfoldable pub decode_s24_3le_pack32 : Buffer → Buffer → Buffer
decode_s24_3le_pack32 dest src =
    let src_00_high = get_unaligned_le32 src 0x00 in
    let src_04_low = get_unaligned_le32 src 0x04 in
    let src_08_high = get_unaligned_le32 src 0x08 in
    let src_0c_low = get_unaligned_le32 src 0x0c in
    let src_10_high = get_unaligned_le32 src 0x10 in
    let src_14_low = get_unaligned_le32 src 0x14 in
    let src_20_high = get_unaligned_le32 src 0x20 in
    let src_24_low = get_unaligned_le32 src 0x24 in
    let src_28_high = get_unaligned_le32 src 0x28 in
    let src_2c_low = get_unaligned_le32 src 0x2c in
    let src_30_high = get_unaligned_le32 src 0x30 in
    let src_34_low = get_unaligned_le32 src 0x34 in
    let d = store dest 0x00 (pack_bit_plane32 src_10_high src_14_low 0) in
    let d = store d 0x01 (pack_bit_plane32 src_08_high src_0c_low 0) in
    let d = store d 0x02 (pack_bit_plane32 src_00_high src_04_low 0) in
    let d = store d 0x03 (pack_bit_plane32 src_30_high src_34_low 0) in
    let d = store d 0x04 (pack_bit_plane32 src_28_high src_2c_low 0) in
    let d = store d 0x05 (pack_bit_plane32 src_20_high src_24_low 0) in
    let d = store d 0x06 (pack_bit_plane32 src_10_high src_14_low 1) in
    let d = store d 0x07 (pack_bit_plane32 src_08_high src_0c_low 1) in
    let d = store d 0x08 (pack_bit_plane32 src_00_high src_04_low 1) in
    let d = store d 0x09 (pack_bit_plane32 src_30_high src_34_low 1) in
    let d = store d 0x0a (pack_bit_plane32 src_28_high src_2c_low 1) in
    let d = store d 0x0b (pack_bit_plane32 src_20_high src_24_low 1) in
    let d = store d 0x0c (pack_bit_plane32 src_10_high src_14_low 2) in
    let d = store d 0x0d (pack_bit_plane32 src_08_high src_0c_low 2) in
    let d = store d 0x0e (pack_bit_plane32 src_00_high src_04_low 2) in
    let d = store d 0x0f (pack_bit_plane32 src_30_high src_34_low 2) in
    let d = store d 0x10 (pack_bit_plane32 src_28_high src_2c_low 2) in
    store d 0x11 (pack_bit_plane32 src_20_high src_24_low 2)
