-- ===== src/Codec/Batch.antt =====
-- The codec as its callers see it (ploytec_codec.c): the build's variant, the one-time table
-- initialisation, and the batch entry points.
use native.Mathlib.Decide.{dec_lt}
use alsa_jockey.Prelude.{
  ℕ, zero, suc, ◌+◌, ◌-◌, ◌*◌, ◌/◌, ◌%◌, ◌≡◌, refl, ◌∙◌, arith, Bool, true, false, ltb,
  if◌then◌else◌, fun_ext, ap, sym, Bool-cases, inl, inr,
}
use alsa_jockey.Codec.Memory.{Buffer, IsBytes, advance, rejoin, advance_zero, advance-advance}
use alsa_jockey.Codec.Reference.{encode_s24_3le, wire_byte, encode_s24_3le_lem}
use alsa_jockey.Codec.Reference.Decode.{decode_s24_3le, gathered, decode_s24_3le_lem}
use alsa_jockey.Codec.Lut64.{
  Table, init_bit_spread_lut64, encode_s24_3le_lut64, decode_s24_3le_pack64,
}
use alsa_jockey.Codec.Lut32.{
  Tables32, init_bit_spread_lut32, encode_s24_3le_lut32, decode_s24_3le_pack32,
}
use alsa_jockey.Codec.Encode.{IsSpread64, encode_lut64-reference, init_bit_spread_lut64-IsSpread64}
use alsa_jockey.Codec.Encode32.{
  IsSpread32, encode_lut32-reference, init_bit_spread_lut32-IsSpread32,
}
use alsa_jockey.Codec.Decode.{decode_pack64-reference, decode_pack32-reference}

pub data Variant : Type 0 where
  portable optimized_64bit optimized_32bit : Variant

-- The static data of ploytec_codec.c: the tables, and the flag of `ploytec_initialize_codec`.
pub record CodecState : Type 0 where
  pub initialized : Bool
  pub bit_spread_64 : Table
  pub bit_spread_32 : Tables32

abbrev pub playback_frames : ℕ
playback_frames = 10

abbrev pub capture_frames : ℕ
capture_frames = 8

abbrev pub playback_frame_size : ℕ
playback_frame_size = 48

abbrev pub playback_pcm_frame_size : ℕ
playback_pcm_frame_size = 12

abbrev pub capture_frame_size : ℕ
capture_frame_size = 64

abbrev pub capture_pcm_frame_size : ℕ
capture_pcm_frame_size = 18

-- `ploytec_codec_init_tables` of the selected build.
unfoldable pub init_tables : Variant → CodecState → CodecState
init_tables portable c = c
init_tables optimized_64bit c = record c { bit_spread_64 = init_bit_spread_lut64 c.bit_spread_64 }
init_tables optimized_32bit c = record c { bit_spread_32 = init_bit_spread_lut32 c.bit_spread_32 }

unfoldable pub initialize_codec : Variant → CodecState → CodecState × Variant
initialize_codec v c =
    let c' = if c.initialized then c else record (init_tables v c) { initialized = true } in (c', v)

unfoldable pub encode_frame : Variant → CodecState → Buffer → Buffer → Buffer
encode_frame portable c dest src = encode_s24_3le dest src
encode_frame optimized_64bit c dest src = encode_s24_3le_lut64 c.bit_spread_64 dest src
encode_frame optimized_32bit c dest src = encode_s24_3le_lut32 c.bit_spread_32 dest src

unfoldable pub decode_frame : Variant → Buffer → Buffer → Buffer
decode_frame portable dest src = decode_s24_3le dest src
decode_frame optimized_64bit dest src = decode_s24_3le_pack64 dest src
decode_frame optimized_32bit dest src = decode_s24_3le_pack32 dest src

-- After each frame the loop moves both pointers on; the frames behind `dest` stay as they are.
unfoldable pub encode_batch : Variant → CodecState → Buffer → Buffer → ℕ → Buffer
unfolding encode_frame
encode_batch v c dest src zero = dest
encode_batch v c dest src (suc n) =
    let d = encode_frame v c dest src in
    rejoin d playback_frame_size
      (encode_batch v c (advance d playback_frame_size) (advance src playback_pcm_frame_size) n)

unfoldable pub decode_batch : Variant → Buffer → Buffer → ℕ → Buffer
unfolding decode_frame
decode_batch v dest src zero = dest
decode_batch v dest src (suc n) =
    let d = decode_frame v dest src in
    rejoin d capture_pcm_frame_size
      (decode_batch v (advance d capture_pcm_frame_size) (advance src capture_frame_size) n)

-- The tables that a variant reads are filled.
abbrev pub IsReady : Variant → CodecState → Type 0
IsReady portable c = Unit {0}
IsReady optimized_64bit c = IsSpread64 c.bit_spread_64
IsReady optimized_32bit c = IsSpread32 c.bit_spread_32

init_tables-IsReady : (v : Variant) (c : CodecState) → IsReady v (init_tables v c)
unfolding init_tables
init_tables-IsReady portable c = tt
init_tables-IsReady optimized_64bit c = init_bit_spread_lut64-IsSpread64 c.bit_spread_64
init_tables-IsReady optimized_32bit c = init_bit_spread_lut32-IsSpread32 c.bit_spread_32

encode_frame_lem :
    (v : Variant) (c : CodecState) (dest src : Buffer)
    → IsReady v c
    → IsBytes src
    → encode_frame v c dest src ≡ encode_s24_3le dest src
unfolding encode_frame
encode_frame_lem portable c dest src ready bytes = refl
encode_frame_lem optimized_64bit c dest src ready bytes =
    encode_lut64-reference c.bit_spread_64 dest src ready bytes
encode_frame_lem optimized_32bit c dest src ready bytes =
    encode_lut32-reference c.bit_spread_32 dest src ready bytes

decode_frame_lem :
    (v : Variant) (dest src : Buffer)
    → IsBytes src
    → decode_frame v dest src ≡ decode_s24_3le dest src
unfolding decode_frame
decode_frame_lem portable dest src bytes = refl
decode_frame_lem optimized_64bit dest src bytes = decode_pack64-reference dest src bytes
decode_frame_lem optimized_32bit dest src bytes = decode_pack32-reference dest src bytes

-- For each variant whose tables are filled, and a source of bytes, encoding `n` frames writes the
-- bytes below 48 n: byte `x` is wire byte `x % 48` of the PCM frame that starts at 12 (x / 48); all
-- other bytes of the destination stay.
pub encode_batch_lem :
    (v : Variant) (c : CodecState) (n : ℕ) (dest src : Buffer)
    → IsReady v c
    → IsBytes src
    → (x : ℕ)
    → encode_batch v c dest src n x
      ≡ (if ltb x (48 * n) then wire_byte (advance src (12 * (x / 48))) (x % 48) else dest x)
unfolding encode_batch
encode_batch_lem v c zero dest src ready bytes x = ground arith
encode_batch_lem v c (suc n) dest src ready bytes x = elim (dec_lt x 48) [
  | yes h ↦ ground (
    arith,
    ap (λ (d : Buffer). d x) (encode_frame_lem v c dest src ready bytes),
    encode_s24_3le_lem dest src x,
    advance_zero src (12 * (x / 48)) (omega arith),
  )
  | no h ↦ ground (
    arith,
    ap (λ (d : Buffer). d (x - 48 + 48)) (encode_frame_lem v c dest src ready bytes),
    encode_s24_3le_lem dest src (x - 48 + 48),
    encode_batch_lem v c n (advance (encode_frame v c dest src) 48) (advance src 12) ready
        (λ y. bytes (y + 12)) (x - 48),
    advance-advance src 12 (12 * ((x - 48) / 48)) (12 * (x / 48)) (omega arith),
  )
]

-- For each variant and a source of bytes, decoding `n` frames writes the bytes below 18 n: byte `x`
-- is PCM byte `x % 18` of the wire frame that starts at 64 (x / 18); all other bytes of the
-- destination stay.
pub decode_batch_lem :
    (v : Variant) (n : ℕ) (dest src : Buffer)
    → IsBytes src
    → (x : ℕ)
    → decode_batch v dest src n x
      ≡ (if ltb x (18 * n) then gathered (advance src (64 * (x / 18))) (x % 18) 8 else dest x)
unfolding decode_batch
decode_batch_lem v zero dest src bytes x = ground arith
decode_batch_lem v (suc n) dest src bytes x = elim (dec_lt x 18) [
  | yes h ↦ ground (
    arith,
    ap (λ (d : Buffer). d x) (decode_frame_lem v dest src bytes),
    decode_s24_3le_lem dest src x,
    advance_zero src (64 * (x / 18)) (omega arith),
  )
  | no h ↦ ground (
    arith,
    ap (λ (d : Buffer). d (x - 18 + 18)) (decode_frame_lem v dest src bytes),
    decode_s24_3le_lem dest src (x - 18 + 18),
    decode_batch_lem v n (advance (decode_frame v dest src) 18) (advance src 64)
        (λ y. bytes (y + 64)) (x - 18),
    advance-advance src 64 (64 * ((x - 18) / 18)) (64 * (x / 18)) (omega arith),
  )
]

-- What `initialize_codec` keeps: the flag is set only over filled tables.
abbrev pub IsSound : Variant → CodecState → Type 0
IsSound v c = c.initialized ≡ true → IsReady v c

initialize_codec-IsReady :
    (v : Variant) (c : CodecState) → IsSound v c → IsReady v (initialize_codec v c).0
unfolding initialize_codec
initialize_codec-IsReady v c sound = go v c.initialized sound
  where
    go :
        (v : Variant) (b : Bool)
        → (b ≡ true → IsReady v c)
        → IsReady v (if b then c else record (init_tables v c) { initialized = true })
    go v true h = h refl
    go portable false h = tt
    go optimized_64bit false h = init_tables-IsReady optimized_64bit c
    go optimized_32bit false h = init_tables-IsReady optimized_32bit c

-- A second call builds nothing.
initialize_twice :
    (v : Variant) (c : CodecState)
    → (initialize_codec v (initialize_codec v c).0).0 ≡ (initialize_codec v c).0
unfolding initialize_codec
initialize_twice v c = elim (Bool-cases c.initialized) [ inl e ↦ simp e | inr e ↦ simp e ]

-- If the flag is set only over filled tables, then after `initialize_codec` the batch encoder of
-- each variant leaves on a source of bytes the same destination as the reference build's, at every
-- offset, for every number of frames.
pub initialize-encode_batch :
    (v : Variant) (c : CodecState) (n : ℕ) (dest src : Buffer)
    → IsSound v c
    → IsBytes src
    → encode_batch v (initialize_codec v c).0 dest src n ≡ encode_batch portable c dest src n
initialize-encode_batch v c n dest src sound bytes = fun_ext λ x.
    encode_batch_lem v (initialize_codec v c).0 n dest src (initialize_codec-IsReady v c sound)
      bytes x
    ∙ sym (encode_batch_lem portable c n dest src tt bytes x)

-- On a source of bytes the batch decoder of each variant leaves the same destination as the
-- reference build's, at every offset.
decode_batch_portable :
    (v : Variant) (n : ℕ) (dest src : Buffer)
    → IsBytes src
    → decode_batch v dest src n ≡ decode_batch portable dest src n
decode_batch_portable v n dest src bytes =
    fun_ext λ x.
      decode_batch_lem v n dest src bytes x ∙ sym (decode_batch_lem portable n dest src bytes x)
