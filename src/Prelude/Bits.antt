-- ===== src/Prelude/Bits.antt =====
-- Casts and shifts of C at fixed widths, and the laws of `|` and `&` that the codec needs:
-- the digit recursion, the split at a byte, and evaluation over all values of a byte.
use Prim.Native.Nat.{
  ℕ, zero, suc, ◌+◌, ◌*◌, ◌/◌, ◌%◌, ◌^◌, ◌≤◌, ◌<◌, min, max, bit_and, bit_or, digits, bitwise,
  bit_and-bitwise, bit_or-bitwise,
}
use mathlib.Core.Path.{◌≡◌, refl, ap}
use mathlib.Core.Bool.{Bool, true, ◌&&◌}
use native.Mathlib.Nat.{pow-suc}
use native.Mathlib.Omega.{arith}

abbrev pub u8 : ℕ → ℕ
u8 n = n % 2 ^ 8

abbrev pub u32 : ℕ → ℕ
u32 n = n % 2 ^ 32

abbrev pub u64 : ℕ → ℕ
u64 n = n % 2 ^ 64

infixl 75 ◌<<<◌ ◌>>>◌
abbrev pub ◌<<<◌ : ℕ → ℕ → ℕ
x <<< k = x * 2 ^ k

abbrev pub ◌>>>◌ : ℕ → ℕ → ℕ
x >>> k = x / 2 ^ k

-- The kernel's digit recursion takes fuel, and a number has no more digits than it is large.
module _ (rest : ℕ → ℕ) (digit : ℕ → ℕ → ℕ) where
  enough_fuel :
      (fuel x y : ℕ)
      → x ≤ fuel
      → (more : ℕ) → x ≤ more
      → digits rest digit more x y ≡ digits rest digit fuel x y
  enough_fuel zero (suc x) y le more le' = absurd (omega arith)
  enough_fuel (suc fuel) (suc x) y le zero le' = absurd (omega arith)
  enough_fuel zero zero y le zero le' = refl
  enough_fuel zero zero y le (suc more) le' = refl
  enough_fuel (suc fuel) zero y le zero le' = refl
  enough_fuel (suc fuel) zero y le (suc more) le' = refl
  enough_fuel (suc fuel) (suc x) y le (suc more) le' =
      omega (arith, enough_fuel fuel (suc x / 2) (y / 2) (omega arith) more (omega arith))

  lowest_digit :
      (x y : ℕ)
      → bitwise rest digit (suc x) y
        ≡ digit (suc x % 2) (y % 2) + 2 * bitwise rest digit (suc x / 2) (y / 2)
  lowest_digit x y =
      omega (arith, enough_fuel (suc x / 2) (suc x / 2) (y / 2) (omega arith) x (omega arith))

pub bit_or_step : (x y : ℕ) → bit_or x y ≡ bit_or (x / 2) (y / 2) * 2 + max (x % 2) (y % 2)
bit_or_step zero y = simp bit_or-bitwise (omega arith)
bit_or_step (suc x) y = simp bit_or-bitwise (omega (arith, lowest_digit (λ t. t) max x y))

pub bit_and_step : (x y : ℕ) → bit_and x y ≡ bit_and (x / 2) (y / 2) * 2 + min (x % 2) (y % 2)
bit_and_step zero y = simp bit_and-bitwise (omega arith)
bit_and_step (suc x) y = simp bit_and-bitwise (omega (arith, lowest_digit (λ t. 0) min x y))

-- A test of all numbers below a bound, by running it.
unfoldable pub passes_below : ℕ → (ℕ → Bool) → Bool
passes_below zero test = true
passes_below (suc bound) test = passes_below bound test && test bound

pub passes_below_sound :
    (test : ℕ → Bool) (bound k : ℕ) → k < bound → passes_below bound test ≡ true → test k ≡ true
unfolding passes_below
passes_below_sound test zero k below run = absurd (omega arith)
passes_below_sound test (suc bound) k below run = ground (arith, passes_below_sound test bound k)

-- Both operations split at every bit position.
mul-two-pow-suc : (q k : ℕ) → 2 ^ suc k * q ≡ 2 * (2 ^ k * q)
mul-two-pow-suc q k = omega (arith, ap (λ (t : ℕ). t * q) (pow-suc 2 k))

pub bit_or_split :
    (k x y a b : ℕ)
    → x < 2 ^ k
    → y < 2 ^ k
    → bit_or (x + 2 ^ k * a) (y + 2 ^ k * b) ≡ bit_or x y + 2 ^ k * bit_or a b
bit_or_split zero x y a b hx hy =
    let ex : x ≡ 0 = omega arith in let ey : y ≡ 0 = omega arith in rw (ex, ey) (ground arith)
bit_or_split (suc k) x y a b hx hy = ground (
  arith,
  pow-suc 2 k,
  bit_or_step (x + 2 ^ suc k * a) (y + 2 ^ suc k * b),
  bit_or_step x y,
  mul-two-pow-suc a k,
  mul-two-pow-suc b k,
  mul-two-pow-suc (bit_or a b) k,
  bit_or_split k (x / 2) (y / 2) a b,
)

pub bit_and_split :
    (k x y a b : ℕ)
    → x < 2 ^ k
    → y < 2 ^ k
    → bit_and (x + 2 ^ k * a) (y + 2 ^ k * b) ≡ bit_and x y + 2 ^ k * bit_and a b
bit_and_split zero x y a b hx hy =
    let ex : x ≡ 0 = omega arith in let ey : y ≡ 0 = omega arith in rw (ex, ey) (ground arith)
bit_and_split (suc k) x y a b hx hy = ground (
  arith,
  pow-suc 2 k,
  bit_and_step (x + 2 ^ suc k * a) (y + 2 ^ suc k * b),
  bit_and_step x y,
  mul-two-pow-suc a k,
  mul-two-pow-suc b k,
  mul-two-pow-suc (bit_and a b) k,
  bit_and_split k (x / 2) (y / 2) a b,
)

bit_and-zero_below : (n a : ℕ) → a ≤ n → bit_and a 0 ≡ 0
bit_and-zero_below n zero h = refl
bit_and-zero_below zero (suc a) h = absurd (omega arith)
bit_and-zero_below (suc n) (suc a) h =
    omega (arith, bit_and_step (suc a) 0, bit_and-zero_below n (suc a / 2) (omega arith))

bit_or-zero_below : (n a : ℕ) → a ≤ n → bit_or a 0 ≡ a
bit_or-zero_below n zero h = refl
bit_or-zero_below zero (suc a) h = absurd (omega arith)
bit_or-zero_below (suc n) (suc a) h =
    omega (arith, bit_or_step (suc a) 0, bit_or-zero_below n (suc a / 2) (omega arith))

pub bit_or-zero : (a : ℕ) → bit_or a 0 ≡ a
bit_or-zero a = bit_or-zero_below a a (omega arith)

pub bit_and-zero : (a : ℕ) → bit_and a 0 ≡ 0
bit_and-zero a = bit_and-zero_below a a (omega arith)

pub bit_and-one : (a : ℕ) → bit_and a 1 ≡ a % 2
bit_and-one a = omega (arith, bit_and_step a 1, bit_and-zero (a / 2))

-- The split at a byte, in the form that words are built in.
pub bit_or_byte :
    (x y a b : ℕ)
    → x < 256
    → y < 256
    → bit_or (x + 256 * a) (y + 256 * b) ≡ bit_or x y + 256 * bit_or a b
bit_or_byte x y a b hx hy = bit_or_split 8 x y a b hx hy

pub bit_and_byte :
    (x y a b : ℕ)
    → x < 256
    → y < 256
    → bit_and (x + 256 * a) (y + 256 * b) ≡ bit_and x y + 256 * bit_and a b
bit_and_byte x y a b hx hy = bit_and_split 8 x y a b hx hy
