-- ===== src/Recovery/Clock.antt =====
-- The 64-bit clock arithmetic of jockey3.c: `ktime_get_mono_fast_ns()` values as u64 and s64.
use alsa_jockey.Prelude.{
  ℕ, ◌+◌, ◌-◌, ◌%◌, ◌^◌, ◌≤◌, ◌<◌, ◌≡◌, arith, Bool, leb, ltb, ◌==◌, ◌||◌, if◌then◌else◌,
}

-- `a - b` on u64.
abbrev pub sub64 : ℕ → ℕ → ℕ
sub64 a b = (a % 2 ^ 64 + (2 ^ 64 - b % 2 ^ 64)) % 2 ^ 64

-- `(s64)a <= 0`.
abbrev pub not_positive : ℕ → Bool
not_positive a = (a == 0) || leb (2 ^ 63) a

-- `clamp(x, lo, hi)`.
abbrev pub clamp : ℕ → ℕ → ℕ → ℕ
clamp x lo hi = if ltb x lo then lo else if ltb hi x then hi else x

pub sub64_lem : (a b : ℕ) → b ≤ a → a < 2 ^ 64 → sub64 a b ≡ a - b
sub64_lem a b h k = omega arith
