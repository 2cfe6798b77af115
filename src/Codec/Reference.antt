-- ===== src/Codec/Reference.antt =====
-- The reference codec of ploytec_codec.c: bit by bit, the readable definition of the wire format.
pub mod Decode
use alsa_jockey.Prelude.{
  ℕ, ◌+◌, ◌-◌, ◌*◌, ◌/◌, ◌%◌, ◌^◌, ◌<◌, ◌≡◌, refl, ◌&&◌, arith, u8, ltb, leb, ◌==◌, if◌then◌else◌,
  ◌<<<◌, ◌>>>◌, bit_and, bit_or, for_range, for_range_inv,
}
use alsa_jockey.Codec.Memory.{Buffer, store, memset}

-- `(((a >> (7 - i)) & 1) << 0) | (((b >> (7 - i)) & 1) << 1)`.
abbrev pub pair_bits : ℕ → ℕ → ℕ → ℕ
pair_bits a b i = bit_or (bit_and (a >>> (7 - i)) 1 <<< 0) (bit_and (b >>> (7 - i)) 1 <<< 1)

-- One round of the encoding loop.
unfoldable pub encode_round : Buffer → ℕ → Buffer → Buffer
encode_round src i d0 =
    let d1 = store d0 i (pair_bits (src 2) (src 8) i) in
    let d2 = store d1 (8 + i) (pair_bits (src 1) (src 7) i) in
    let d3 = store d2 (16 + i) (pair_bits (src 0) (src 6) i) in
    let d4 = store d3 (24 + i) (pair_bits (src 5) (src 11) i) in
    let d5 = store d4 (32 + i) (pair_bits (src 4) (src 10) i) in
    store d5 (40 + i) (pair_bits (src 3) (src 9) i)

unfoldable pub encode_s24_3le : Buffer → Buffer → Buffer
unfolding encode_round for_range
encode_s24_3le dest src = for_range 8 0 (encode_round src) dest

-- Wire byte `x` of the frame: block `x / 8` holds one byte of a channel pair, most significant bit
-- first.
unfoldable pub block_source : ℕ → ℕ
block_source b = if ltb b 3 then 2 - b else 8 - b

pub wire_byte : Buffer → ℕ → ℕ
wire_byte src x = let k = block_source (x / 8) in u8 (pair_bits (src k) (src (k + 6)) (x % 8))

pub wire_byte_at :
    (src : Buffer) (b i x : ℕ)
    → b < 6
    → i < 8
    → x ≡ 8 * b + i
    → wire_byte src x ≡ u8 (pair_bits (src (block_source b)) (src (block_source b + 6)) i)
unfolding wire_byte
wire_byte_at src b i x hb hi e =
    let q : x / 8 ≡ b = omega arith in let r : x % 8 ≡ i = omega arith in rw (q, r)

-- After `i` rounds the first `i` bytes of each block are written.
abbrev Encoded : Buffer → Buffer → ℕ → Buffer → Type 0
Encoded src dest i p =
    (x : ℕ) → p x ≡ (if ltb x 48 && ltb (x % 8) i then wire_byte src x else dest x)

encode_round-Encoded :
    (src dest : Buffer) (i : ℕ) (p : Buffer)
    → i < 8
    → Encoded src dest i p
    → Encoded src dest (i + 1) (encode_round src i p)
unfolding encode_round block_source
encode_round-Encoded src dest i p hi h x = ground (
  arith,
  h x,
  wire_byte_at src 0 i x (omega arith) hi,
  wire_byte_at src 1 i x (omega arith) hi,
  wire_byte_at src 2 i x (omega arith) hi,
  wire_byte_at src 3 i x (omega arith) hi,
  wire_byte_at src 4 i x (omega arith) hi,
  wire_byte_at src 5 i x (omega arith) hi,
)

Encoded-start : (src dest : Buffer) → Encoded src dest 0 dest
Encoded-start src dest x = ground arith

Encoded-end :
    (src dest p : Buffer) (x : ℕ)
    → Encoded src dest 8 p
    → p x ≡ (if ltb x 48 then wire_byte src x else dest x)
Encoded-end src dest p x h = ground (arith, h x)

-- The reference encoder writes the 48 wire bytes and nothing else.
pub encode_s24_3le_lem :
    (dest src : Buffer) (x : ℕ)
    → encode_s24_3le dest src x ≡ (if ltb x 48 then wire_byte src x else dest x)
unfolding encode_s24_3le
encode_s24_3le_lem dest src x = Encoded-end src dest (for_range 8 0 (encode_round src) dest) x (
    for_range_inv (Encoded src dest) (encode_round src) 8
      (λ i p hi h. encode_round-Encoded src dest i p hi h) 8 0 dest refl (Encoded-start src dest))
