-- ===== src/Probe/Slots/First.antt =====
-- Which slot `jockey3_claim_slot` (jockey3.c) takes.
use alsa_jockey.Prelude.{
  ℕ, zero, suc, ◌+◌, ◌<◌, ◌≤◌, ◌≡◌, refl, arith, Bool, true, false, not, ◌&&◌, ◌==◌, Option, none,
  some, fun_ext, Bool-cases, inl, inr, subst, sym, ==_iff,
}
use native.Mathlib.Decide.{dec_lt}
use alsa_jockey.Errno.{enodev}
use alsa_jockey.Proto.Session.{Result, err, ok}
use alsa_jockey.Probe.Slots.{put_bit, first_unused, take_slot, claim_slot, release_slot}

-- Slot `i` is taken where a search from slot `lo` may take it.
pub record IsFirst (enable used : ℕ → Bool) (lo hi i : ℕ) : Type 0 where
  pub low : lo ≤ i
  pub high : i < hi
  pub enabled : enable i ≡ true
  pub unused : used i ≡ false
  pub earlier : (j : ℕ) → lo ≤ j → j < i → enable j ≡ true → used j ≡ true

-- What a search says of the slots from `lo` up to `hi`.
abbrev pub IsSearch : (ℕ → Bool) → (ℕ → Bool) → ℕ → ℕ → Option ℕ → Type 0
IsSearch enable used lo hi none = (j : ℕ) → lo ≤ j → j < hi → enable j ≡ true → used j ≡ true
IsSearch enable used lo hi (some i) = IsFirst enable used lo hi i

module _ (enable used : ℕ → Bool) where
  free_bits : (i : ℕ) → (enable i && not (used i)) ≡ true → (enable i ≡ true) × (used i ≡ false)
  free_bits i h = ground (arith, h)

  taken_bits : (i : ℕ) → (enable i && not (used i)) ≡ false → enable i ≡ true → used i ≡ true
  taken_bits i h e = ground (arith, h, e)

  at_or_above :
      (lo j : ℕ)
      → (enable lo && not (used lo)) ≡ false
      → (lo + 1 ≤ j → enable j ≡ true → used j ≡ true)
      → lo ≤ j
      → enable j ≡ true
      → used j ≡ true
  at_or_above lo j h above a e = elim (dec_lt lo j) [
    | yes k ↦ above (omega (arith, k)) e
    | no k ↦
        let same : lo ≡ j = omega (arith, k, a) in
        taken_bits j (subst (λ (x : ℕ). (enable x && not (used x)) ≡ false) same h) e
  ]

  extend :
      (lo hi : ℕ) (o : Option ℕ)
      → (enable lo && not (used lo)) ≡ false
      → IsSearch enable used (lo + 1) hi o
      → IsSearch enable used lo hi o
  extend lo hi none h s = λ j a b e. at_or_above lo j h (λ k. s j k b) a e
  extend lo hi (some i) h s = record {
    low = omega (arith, s.low);
    high = s.high;
    enabled = s.enabled;
    unused = s.unused;
    earlier = λ j a b e. at_or_above lo j h (λ k. s.earlier j k b) a e;
  }

  first_unused-IsSearch :
      (left lo hi : ℕ)
      → lo + left ≡ hi
      → IsSearch enable used lo hi (first_unused enable used left lo)
  unfolding first_unused
  first_unused-IsSearch zero lo hi end = λ j a b e. absurd (omega (arith, a, b, end))
  first_unused-IsSearch (suc left) lo hi end = elim (Bool-cases (enable lo && not (used lo))) [
    | inl h ↦
        let (e, u) = free_bits lo h in
        rw h (record {
          low = omega arith;
          high = omega (arith, end);
          enabled = e;
          unused = u;
          earlier = λ j a b. absurd (omega (arith, a, b));
        })
    | inr h ↦
        let later = first_unused-IsSearch left (lo + 1) hi (omega (arith, end)) in
        rw h (extend lo hi (first_unused enable used left (lo + 1)) h later)
  ]

put_bit-undone :
    (i j : ℕ) (used : ℕ → Bool) → used i ≡ false → put_bit i false (put_bit i true used) j ≡ used j
put_bit-undone i j used u = elim (Bool-cases (j == i)) [
  | inl e ↦ let same : j ≡ i = (==_iff j i).0 e in rw (same, (==_iff i i).1 refl) (sym u)
  | inr e ↦ rw e refl
]

-- The outcome of a claim: a slot is marked, and gives back what was there when it is released; or no
-- enabled slot is left and nothing changes.
abbrev pub IsClaim : ℕ → (ℕ → Bool) → (ℕ → Bool) → (ℕ → Bool) → Result ℕ → Type 0
IsClaim cards enable used used' (ok i) =
    IsFirst enable used 0 cards i × (used' i ≡ true) × (release_slot i used' ≡ used)
IsClaim cards enable used used' (err e) =
    (e ≡ enodev) × (used' ≡ used) × ((j : ℕ) → j < cards → enable j ≡ true → used j ≡ true)

take_slot-IsClaim :
    (cards : ℕ) (enable used : ℕ → Bool) (o : Option ℕ)
    → IsSearch enable used 0 cards o
    → IsClaim cards enable used (take_slot used o).0 (take_slot used o).1
unfolding take_slot release_slot
take_slot-IsClaim cards enable used none s = (refl, refl, λ j. s j (omega arith))
take_slot-IsClaim cards enable used (some i) s =
    (s, rw ((==_iff i i).1 refl) refl, fun_ext (λ j. put_bit-undone i j used s.unused))

-- A claim takes the first slot that is enabled and not in use, and marks it; released, the slot is
-- free again, with every other slot as it was. A claim is refused with -ENODEV, changing nothing,
-- only where every enabled slot is in use.
pub claim_slot-IsClaim :
    (cards : ℕ) (enable used : ℕ → Bool)
    → let (used', r) = claim_slot cards enable used in IsClaim cards enable used used' r
unfolding claim_slot
claim_slot-IsClaim cards enable used =
    take_slot-IsClaim cards enable used (first_unused enable used cards 0)
      (first_unused-IsSearch enable used cards 0 cards (omega arith))
