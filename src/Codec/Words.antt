-- ===== src/Codec/Words.antt =====
-- Words as lists of bytes, the least significant first: how `|`, `&` and the reads of single
-- bytes act on them, and what the words of the lookup tables are.
use alsa_jockey.Prelude.{
  ℕ, zero, suc, ◌+◌, ◌-◌, ◌*◌, ◌/◌, ◌%◌, ◌^◌, ◌<◌, ◌≡◌, refl, true, List, [], ◌∷◌, map, arith,
  length, ◌==◌, u8, u64, ◌<<<◌, ◌>>>◌, bit_and, bit_or, bit_or_byte, ◌&&◌, bit_and_byte,
  bit_and-one, bit_and-zero, u32, passes_below, passes_below_sound,
}
use alsa_jockey.Codec.Lut64.{spread_64}
use alsa_jockey.Codec.Lut32.{spread_32_high, spread_32_low}

abbrev pub word : List ℕ → ℕ
word [] = 0
word (x ∷ xs) = x + 256 * word xs

abbrev pub AreBytes : List ℕ → Type 0
AreBytes [] = Unit {0}
AreBytes (x ∷ xs) = (x < 256) × AreBytes xs

-- Bit `j` of a byte, and its bits from the most significant down: the order on the wire.
abbrev pub bit : ℕ → ℕ → ℕ
bit j b = b / 2 ^ j % 2

abbrev pub high_nibble : ℕ → List ℕ
high_nibble b = bit 7 b ∷ bit 6 b ∷ bit 5 b ∷ bit 4 b ∷ []

abbrev pub low_nibble : ℕ → List ℕ
low_nibble b = bit 3 b ∷ bit 2 b ∷ bit 1 b ∷ bit 0 b ∷ []

abbrev pub all_bits : ℕ → List ℕ
all_bits b = bit 7 b ∷ bit 6 b ∷ bit 5 b ∷ bit 4 b ∷ bit 3 b ∷ bit 2 b ∷ bit 1 b ∷ bit 0 b ∷ []

-- `|` goes byte by byte.
abbrev pub or_each : List ℕ → List ℕ → List ℕ
or_each [] ys = []
or_each (x ∷ xs) [] = x ∷ xs
or_each (x ∷ xs) (y ∷ ys) = bit_or x y ∷ or_each xs ys

pub bit_or-word :
    (xs ys : List ℕ)
    → length xs ≡ length ys
    → AreBytes xs
    → AreBytes ys
    → bit_or (word xs) (word ys) ≡ word (or_each xs ys)
bit_or-word [] [] e hx hy = refl
bit_or-word [] (y ∷ ys) e hx hy = absurd (omega arith)
bit_or-word (x ∷ xs) [] e hx hy = absurd (omega arith)
bit_or-word (x ∷ xs) (y ∷ ys) e hx hy = ground (
  arith,
  bit_or_byte x y (word xs) (word ys) hx.0 hy.0,
  bit_or-word xs ys (omega arith) hx.1 hy.1,
)

-- The mask 0x0101…01 with a one in each of `n` bytes.
abbrev pub ones : ℕ → ℕ
ones zero = 0
ones (suc n) = 1 + 256 * ones n

-- `(w >> k) & 0x0101…01` leaves bit `k` of each byte.
pub bit_and-ones : (w n : ℕ) → bit_and w (ones (suc n)) ≡ w % 2 + 256 * bit_and (w / 256) (ones n)
bit_and-ones w n =
    ground (arith, bit_and_byte (w % 256) 1 (w / 256) (ones n), bit_and-one (w % 256))

-- The table entries, for every byte.
spread_table :
    passes_below 256 (λ b.
      (spread_64 b == word (all_bits b))
      && (spread_32_high b == word (high_nibble b))
      && (spread_32_low b == word (low_nibble b)))
    ≡ true
unfolding passes_below spread_64 spread_32_high spread_32_low
spread_table = refl

pub spread_lem :
    (b : ℕ)
    → b < 256
    → (spread_64 b ≡ word (all_bits b))
      × (spread_32_high b ≡ word (high_nibble b))
      × (spread_32_low b ≡ word (low_nibble b))
spread_lem b h = ground (arith, passes_below_sound _ 256 b h spread_table)

-- What the shift by `c` does to the lowest byte and to the rest of a word.
shift_byte :
    (c x w : ℕ)
    → c < 3
    → x < 256
    → ((x + 256 * w) / 2 ^ c % 2 ≡ bit c x) × ((x + 256 * w) / 2 ^ c / 256 ≡ w / 2 ^ c)
shift_byte zero x w hc hx = omega arith
shift_byte (suc zero) x w hc hx = omega arith
shift_byte (suc (suc zero)) x w hc hx = omega arith
shift_byte (suc (suc (suc c))) x w hc hx = absurd (omega arith)

pub mask_lem :
    (c : ℕ) (xs : List ℕ)
    → c < 3
    → AreBytes xs
    → bit_and (word xs >>> c) (ones (length xs)) ≡ word (map (bit c) xs)
mask_lem c [] hc h = bit_and-zero (0 / 2 ^ c)
mask_lem c (x ∷ xs) hc h = ground (
  arith,
  bit_and-ones (word (x ∷ xs) >>> c) (length xs),
  shift_byte c x (word xs) hc h.0,
  mask_lem c xs hc h.1,
)

-- The magic multipliers collect the bits of a byte, and so does the reference's chain of `|=`.
pub multiplier_table :
    passes_below 256 (λ b.
      (u8 (u64 (word (all_bits b) * 0x8040201008040201) >>> 56) == b)
      && (u8 (u32 (word (high_nibble b) * 0x08040201) >>> 24) == b / 16)
      && (u8 (u32 (word (low_nibble b) * 0x08040201) >>> 24) == b % 16)
      && (u8 (bit_or ((b / 16) <<< 4) (b % 16)) == b))
    ≡ true
unfolding passes_below
multiplier_table = refl

abbrev pub or_bit : ℕ → ℕ → ℕ → ℕ
or_bit acc i m = u8 (bit_or acc (m <<< (7 - i)))

-- The byte that the eight bits, most significant first, give under `|=`.
abbrev pub or_bits : ℕ → ℕ → ℕ → ℕ → ℕ → ℕ → ℕ → ℕ → ℕ
or_bits a b c d e f g h =
    or_bit
      (or_bit (or_bit (or_bit (or_bit (or_bit (or_bit (or_bit 0 0 a) 1 b) 2 c) 3 d) 4 e) 5 f) 6 g) 7
      h

pub or_table :
    passes_below 256 (λ b.
      or_bits (bit 7 b) (bit 6 b) (bit 5 b) (bit 4 b) (bit 3 b) (bit 2 b) (bit 1 b) (bit 0 b) == b)
    ≡ true
unfolding passes_below
or_table = refl
