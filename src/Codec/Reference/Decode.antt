-- ===== src/Codec/Reference/Decode.antt =====
-- The reference decoder of ploytec_codec.c and the PCM bytes that it gives.
use native.Mathlib.Numerals.{add-one}
use alsa_jockey.Prelude.{
  ℕ, zero, suc, ◌+◌, ◌-◌, ◌*◌, ◌/◌, ◌%◌, ◌^◌, ◌≤◌, ◌<◌, ◌≡◌, refl, arith, u8, ltb, if◌then◌else◌,
  ◌<<<◌, ◌>>>◌, bit_and, bit_or, for_range, for_range_inv,
}
use alsa_jockey.Codec.Memory.{Buffer, store, memset}

-- `dest[a] |= v`.
abbrev pub or_into : Buffer → ℕ → ℕ → Buffer
or_into d a v = store d a (bit_or (d a) v)

-- The bits 0, 1 and 2 of a wire byte, moved to where bit `i` of a block goes.
abbrev pub bit0_to : ℕ → ℕ → ℕ
bit0_to i v = bit_and v 0x01 <<< (7 - i)

abbrev pub bit1_to : ℕ → ℕ → ℕ
bit1_to i v = bit_and v 0x02 >>> 1 <<< (7 - i)

abbrev pub bit2_to : ℕ → ℕ → ℕ
bit2_to i v = bit_and v 0x04 >>> 2 <<< (7 - i)

-- One round of the decoding loop.
unfoldable pub decode_round : Buffer → ℕ → Buffer → Buffer
decode_round src i d =
    let d = or_into d 0x00 (bit0_to i (src (0x10 + i))) in
    let d = or_into d 0x01 (bit0_to i (src (0x08 + i))) in
    let d = or_into d 0x02 (bit0_to i (src (0x00 + i))) in
    let d = or_into d 0x03 (bit0_to i (src (0x30 + i))) in
    let d = or_into d 0x04 (bit0_to i (src (0x28 + i))) in
    let d = or_into d 0x05 (bit0_to i (src (0x20 + i))) in
    let d = or_into d 0x06 (bit1_to i (src (0x10 + i))) in
    let d = or_into d 0x07 (bit1_to i (src (0x08 + i))) in
    let d = or_into d 0x08 (bit1_to i (src (0x00 + i))) in
    let d = or_into d 0x09 (bit1_to i (src (0x30 + i))) in
    let d = or_into d 0x0a (bit1_to i (src (0x28 + i))) in
    let d = or_into d 0x0b (bit1_to i (src (0x20 + i))) in
    let d = or_into d 0x0c (bit2_to i (src (0x10 + i))) in
    let d = or_into d 0x0d (bit2_to i (src (0x08 + i))) in
    let d = or_into d 0x0e (bit2_to i (src (0x00 + i))) in
    let d = or_into d 0x0f (bit2_to i (src (0x30 + i))) in
    let d = or_into d 0x10 (bit2_to i (src (0x28 + i))) in
    or_into d 0x11 (bit2_to i (src (0x20 + i)))

unfoldable pub decode_s24_3le : Buffer → Buffer → Buffer
unfolding decode_round for_range memset
decode_s24_3le dest src = for_range 8 0 (decode_round src) (memset dest 0 18)

-- Bit plane `k / 6` holds PCM byte `k`, in the block of eight wire bytes at `block_start k`.
unfoldable pub block_start : ℕ → ℕ
block_start k = (k / 3 % 2) * 0x20 + (2 - k % 3) * 8

abbrev pub wire_bit : ℕ → ℕ → ℕ
wire_bit v c = bit_and v (2 ^ c) >>> c

-- The byte that the first `i` wire bytes of a block give.
unfoldable pub gathered : Buffer → ℕ → ℕ → ℕ
gathered src k zero = 0
gathered src k (suc i) =
    u8 (bit_or (gathered src k i) (wire_bit (src (block_start k + i)) (k / 6) <<< (7 - i)))

gathered_step :
    (src : Buffer) (k i : ℕ)
    → gathered src k (i + 1)
      ≡ u8 (bit_or (gathered src k i) (wire_bit (src (block_start k + i)) (k / 6) <<< (7 - i)))
unfolding gathered
gathered_step src k i = rw add-one

abbrev Decoded : Buffer → Buffer → ℕ → Buffer → Type 0
Decoded src dest i p = (x : ℕ) → p x ≡ (if ltb x 18 then gathered src x i else dest x)

decode_round-outside :
    (src : Buffer) (i : ℕ) (p : Buffer) (x : ℕ) → 18 ≤ x → decode_round src i p x ≡ p x
unfolding decode_round
decode_round-outside src i p x h = ground arith

decode_round-inside :
    (src : Buffer) (i : ℕ) (p : Buffer) (x : ℕ)
    → x < 18
    → decode_round src i p x
      ≡ u8 (bit_or (p x) (wire_bit (src (block_start x + i)) (x / 6) <<< (7 - i)))
unfolding decode_round block_start
decode_round-inside src i p x h = ground arith

decode_round-Decoded :
    (src dest : Buffer) (i : ℕ) (p : Buffer)
    → Decoded src dest i p
    → Decoded src dest (i + 1) (decode_round src i p)
decode_round-Decoded src dest i p h x = ground (
  arith,
  h x,
  gathered_step src x i,
  decode_round-outside src i p x,
  decode_round-inside src i p x,
)

memset-Decoded : (src dest : Buffer) → Decoded src dest 0 (memset dest 0 18)
unfolding memset gathered
memset-Decoded src dest x = ground arith

-- The reference decoder writes the 18 PCM bytes and nothing else.
pub decode_s24_3le_lem :
    (dest src : Buffer) (x : ℕ)
    → decode_s24_3le dest src x ≡ (if ltb x 18 then gathered src x 8 else dest x)
unfolding decode_s24_3le
decode_s24_3le_lem dest src =
    for_range_inv (Decoded src dest) (decode_round src) 8
      (λ i p _ h. decode_round-Decoded src dest i p h) 8 0 (memset dest 0 18) refl
      (memset-Decoded src dest)

pub gathered-lt : (src : Buffer) (k i : ℕ) → gathered src k i < 256
unfolding gathered
gathered-lt src k zero = omega arith
gathered-lt src k (suc i) = omega arith
