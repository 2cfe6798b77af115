-- ===== src/Probe/Slots.antt =====
-- The card slots (jockey3.c): `jockey3_claim_slot` and `jockey3_release_slot`.
pub mod First
use alsa_jockey.Prelude.{
  ℕ, zero, suc, ◌+◌, Bool, true, false, not, ◌&&◌, ◌==◌, if◌then◌else◌, Option, none, some,
}
use alsa_jockey.Errno.{enodev}
use alsa_jockey.Proto.Session.{Result, err, ok}

-- `__set_bit` and `__clear_bit`.
abbrev pub put_bit : ℕ → Bool → (ℕ → Bool) → ℕ → Bool
put_bit i b bits j = if j == i then b else bits j

-- The first of the `left` slots from `i` on that is enabled and not used.
unfoldable pub first_unused : (ℕ → Bool) → (ℕ → Bool) → ℕ → ℕ → Option ℕ
first_unused enable used zero i = none
first_unused enable used (suc left) i =
    let later = first_unused enable used left (i + 1) in
    if enable i && not (used i) then some i else later

unfoldable pub take_slot : (ℕ → Bool) → Option ℕ → (ℕ → Bool) × Result ℕ
take_slot used none = (used, err enodev)
take_slot used (some i) = (put_bit i true used, ok i)

-- `cards` is SNDRV_CARDS, and `enable` the module's parameter.
unfoldable pub claim_slot : ℕ → (ℕ → Bool) → (ℕ → Bool) → (ℕ → Bool) × Result ℕ
claim_slot cards enable used = take_slot used (first_unused enable used cards 0)

unfoldable pub release_slot : ℕ → (ℕ → Bool) → ℕ → Bool
release_slot i used = put_bit i false used
