-- ===== src/Codec/Memory.antt =====
-- Byte buffers as the codec sees them: what a `u8 *` points at, as a function of the offset from
-- it, with the unaligned little-endian accesses (tests/codec/harness/stubs/linux/unaligned.h) and
-- `memset`.
use alsa_jockey.Prelude.{
  ap, fun_ext, ℕ, ◌+◌, ◌-◌, ◌*◌, ◌/◌, ◌%◌, ◌^◌, ◌<◌, ◌≡◌, ◌&&◌, arith, u8, ltb, leb, ◌==◌,
  if◌then◌else◌,
}

-- The bytes behind a pointer; `p x` is `p[x]`, and `advance p k` is `p + k`.
abbrev pub Buffer : Type 0
Buffer = ℕ → ℕ

-- All entries are `u8` values.
abbrev pub IsBytes : Buffer → Type 0
IsBytes p = (x : ℕ) → p x < 256

-- `p[a] = v`, cut to a byte.
abbrev pub store : Buffer → ℕ → ℕ → Buffer
store p a v x = if x == a then u8 v else p x

abbrev pub advance : Buffer → ℕ → Buffer
advance p k x = p (x + k)

-- The bytes before `k` of the one and, from there on, those of the other: the view of a whole
-- buffer after a write through the pointer `p + k`.
abbrev pub rejoin : Buffer → ℕ → Buffer → Buffer
rejoin p k q x = if ltb x k then p x else q (x - k)

unfoldable pub memset : Buffer → ℕ → ℕ → Buffer
memset p v n x = if ltb x n then u8 v else p x

-- Byte `i` of a word, the least significant first.
abbrev pub byte_of : ℕ → ℕ → ℕ
byte_of w i = w / 256 ^ i % 256

unfoldable pub put_unaligned_le32 : ℕ → ℕ → Buffer → Buffer
put_unaligned_le32 w a p =
    store (store (store (store p a (byte_of w 0)) (a + 1) (byte_of w 1)) (a + 2) (byte_of w 2))
      (a + 3) (byte_of w 3)

unfoldable pub put_unaligned_le64 : ℕ → ℕ → Buffer → Buffer
unfolding put_unaligned_le32
put_unaligned_le64 w a p =
    put_unaligned_le32 (w / 2 ^ 32) (a + 4) (put_unaligned_le32 (w % 2 ^ 32) a p)

unfoldable pub get_unaligned_le32 : Buffer → ℕ → ℕ
get_unaligned_le32 p a = p a + 256 * (p (a + 1) + 256 * (p (a + 2) + 256 * p (a + 3)))

unfoldable pub get_unaligned_le64 : Buffer → ℕ → ℕ
get_unaligned_le64 p a =
    p a
    + 256
      * (p (a + 1)
          + 256
            * (p (a + 2)
                + 256
                  * (p (a + 3)
                      + 256
                        * (p (a + 4) + 256 * (p (a + 5) + 256 * (p (a + 6) + 256 * p (a + 7)))))))

-- A 32-bit store changes the four bytes at `a` and no other.
pub put_unaligned_le32_lem :
    (w a : ℕ) (p : Buffer) (x : ℕ)
    → put_unaligned_le32 w a p x ≡ (if leb a x && ltb x (a + 4) then byte_of w (x - a) else p x)
unfolding put_unaligned_le32
put_unaligned_le32_lem w a p x = ground arith

-- A 64-bit store changes the eight bytes at `a` and no other.
pub put_unaligned_le64_lem :
    (w a : ℕ) (p : Buffer) (x : ℕ)
    → put_unaligned_le64 w a p x ≡ (if leb a x && ltb x (a + 8) then byte_of w (x - a) else p x)
unfolding put_unaligned_le64
put_unaligned_le64_lem w a p x = ground arith

pub advance_zero : (p : Buffer) (k : ℕ) → k ≡ 0 → advance p k ≡ p
advance_zero p k e = fun_ext λ x. ap p (omega arith)

pub advance-advance : (p : Buffer) (a b c : ℕ) → a + b ≡ c → advance (advance p a) b ≡ advance p c
advance-advance p a b c e = fun_ext λ x. ap p (omega arith)
