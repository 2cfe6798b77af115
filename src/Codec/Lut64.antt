-- ===== src/Codec/Lut64.antt =====
-- The optimised encoder and decoder of a 64-bit build (ploytec_codec.c).
use alsa_jockey.Prelude.{
  ℕ, ◌-◌, ◌*◌, u8, u64, ◌==◌, if◌then◌else◌, ◌<<<◌, ◌>>>◌, bit_and, bit_or, for_range,
}
use alsa_jockey.Codec.Memory.{Buffer, put_unaligned_le64, get_unaligned_le64, store}

-- `ploytec_bit_spread_64` is an array of `u64`.
abbrev pub Table : Type 0
Table = ℕ → ℕ

-- `spread |= (u64)((b >> (7 - i)) & 1) << (i * 8)`.
unfoldable pub spread_64 : ℕ → ℕ
unfolding for_range
spread_64 b =
    for_range 8 0 (λ i spread. bit_or spread (u64 (bit_and (b >>> (7 - i)) 1 <<< (i * 8)))) 0

abbrev pub entry : Table → ℕ → ℕ → Table
entry t b w x = if x == b then w else t x

unfoldable pub init_bit_spread_lut64 : Table → Table
unfolding for_range
init_bit_spread_lut64 t = for_range 256 0 (λ b t. entry t b (spread_64 b)) t

-- `spread[a] | (spread[b] << 1)`.
abbrev pub pair_word : Table → ℕ → ℕ → ℕ
pair_word spread a b = bit_or (spread a) (u64 (spread b <<< 1))

unfoldable pub encode_s24_3le_lut64 : Table → Buffer → Buffer → Buffer
encode_s24_3le_lut64 spread dest src =
    let d = put_unaligned_le64 (pair_word spread (src 2) (src 8)) 0 dest in
    let d = put_unaligned_le64 (pair_word spread (src 1) (src 7)) 8 d in
    let d = put_unaligned_le64 (pair_word spread (src 0) (src 6)) 16 d in
    let d = put_unaligned_le64 (pair_word spread (src 5) (src 11)) 24 d in
    let d = put_unaligned_le64 (pair_word spread (src 4) (src 10)) 32 d in
    put_unaligned_le64 (pair_word spread (src 3) (src 9)) 40 d

unfoldable pub pack_bit_plane64 : ℕ → ℕ → ℕ
pack_bit_plane64 val bit_index =
    let masked = bit_and (val >>> bit_index) 0x0101010101010101 in
    u8 (u64 (masked * 0x8040201008040201) >>> 56)

unfoldable pub decode_s24_3le_pack64 : Buffer → Buffer → Buffer
decode_s24_3le_pack64 dest src =
    let blocks_0_17_low = get_unaligned_le64 src 0x00 in
    let blocks_0_17_mid = get_unaligned_le64 src 0x08 in
    let blocks_0_17_high = get_unaligned_le64 src 0x10 in
    let blocks_20_37_low = get_unaligned_le64 src 0x20 in
    let blocks_20_37_mid = get_unaligned_le64 src 0x28 in
    let blocks_20_37_high = get_unaligned_le64 src 0x30 in
    let d = store dest 0x00 (pack_bit_plane64 blocks_0_17_high 0) in
    let d = store d 0x01 (pack_bit_plane64 blocks_0_17_mid 0) in
    let d = store d 0x02 (pack_bit_plane64 blocks_0_17_low 0) in
    let d = store d 0x03 (pack_bit_plane64 blocks_20_37_high 0) in
    let d = store d 0x04 (pack_bit_plane64 blocks_20_37_mid 0) in
    let d = store d 0x05 (pack_bit_plane64 blocks_20_37_low 0) in
    let d = store d 0x06 (pack_bit_plane64 blocks_0_17_high 1) in
    let d = store d 0x07 (pack_bit_plane64 blocks_0_17_mid 1) in
    let d = store d 0x08 (pack_bit_plane64 blocks_0_17_low 1) in
    let d = store d 0x09 (pack_bit_plane64 blocks_20_37_high 1) in
    let d = store d 0x0a (pack_bit_plane64 blocks_20_37_mid 1) in
    let d = store d 0x0b (pack_bit_plane64 blocks_20_37_low 1) in
    let d = store d 0x0c (pack_bit_plane64 blocks_0_17_high 2) in
    let d = store d 0x0d (pack_bit_plane64 blocks_0_17_mid 2) in
    let d = store d 0x0e (pack_bit_plane64 blocks_0_17_low 2) in
    let d = store d 0x0f (pack_bit_plane64 blocks_20_37_high 2) in
    let d = store d 0x10 (pack_bit_plane64 blocks_20_37_mid 2) in
    store d 0x11 (pack_bit_plane64 blocks_20_37_low 2)
