-- ===== src/Tests/CodecTests.antt =====
-- The codec (ploytec_codec.c) at concrete buffers and tables.
use mathlib.Core.Bool.{true≢false}
use alsa_jockey.Prelude.{sym, ◌+◌, ◌*◌, ◌/◌, ◌%◌, ◌≡◌, arith, true, false}
use alsa_jockey.Codec.Memory.{Buffer, IsBytes, advance}
use alsa_jockey.Codec.Reference.{wire_byte}
use alsa_jockey.Codec.Reference.Decode.{gathered}
use alsa_jockey.Codec.Lut64.{Table, init_bit_spread_lut64}
use alsa_jockey.Codec.Lut32.{Tables32}
use alsa_jockey.Codec.Encode.{init_bit_spread_lut64-IsSpread64}
use alsa_jockey.Codec.Batch.{
  portable, optimized_64bit, optimized_32bit, CodecState, initialize_codec, encode_batch,
  decode_batch, encode_batch_lem, decode_batch_lem, initialize-encode_batch,
}

abbrev no_table : Table
no_table x = 0

abbrev no_tables : Tables32
no_tables = record { high = no_table; low = no_table }

-- As the module is loaded.
abbrev loaded : CodecState
loaded = record { initialized = false; bit_spread_64 = no_table; bit_spread_32 = no_tables }

abbrev filled_64 : CodecState
filled_64 = record loaded { initialized = true; bit_spread_64 = init_bit_spread_lut64 no_table }

abbrev pcm : Buffer
pcm x = (37 * x + 11) % 256

pcm-IsBytes : IsBytes pcm
pcm-IsBytes x = omega arith

abbrev idle : Buffer
idle x = 0xfd

initialize-encode_batch_example :
    encode_batch optimized_64bit (initialize_codec optimized_64bit loaded).0 idle pcm 10
    ≡ encode_batch portable loaded idle pcm 10
initialize-encode_batch_example =
    initialize-encode_batch optimized_64bit loaded 10 idle pcm (λ e. absurd (true≢false (sym e)))
      pcm-IsBytes

encode_batch_example :
    encode_batch optimized_64bit filled_64 idle pcm 10 479
    ≡ wire_byte (advance pcm (12 * (479 / 48))) (479 % 48)
encode_batch_example =
    encode_batch_lem optimized_64bit filled_64 10 idle pcm
      (init_bit_spread_lut64-IsSpread64 no_table) pcm-IsBytes 479

decode_batch_example :
    decode_batch optimized_32bit idle pcm 8 143
    ≡ gathered (advance pcm (64 * (143 / 18))) (143 % 18) 8
decode_batch_example = decode_batch_lem optimized_32bit 8 idle pcm pcm-IsBytes 143
