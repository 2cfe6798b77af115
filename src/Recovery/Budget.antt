-- ===== src/Recovery/Budget.antt =====
-- The budget for USB resets: `jockey3_recovery_budget_take` (jockey3.c).
use alsa_jockey.Prelude.{
  ℕ, ◌+◌, ◌-◌, ◌*◌, ◌^◌, ◌≤◌, ◌<◌, ◌≡◌, arith, Bool, true, false, ltb, leb, ◌==◌, ◌||◌,
  if◌then◌else◌, u32, min, List, [], ◌∷◌, length, ◌⊎◌, inl, inr,
}
use alsa_jockey.Stream.State.{Chip, nsec_per_msec}
use alsa_jockey.Recovery.Clock.{sub64}

abbrev pub recovery_max_attempts : ℕ
recovery_max_attempts = 3

abbrev pub recovery_window_ms : ℕ
recovery_window_ms = 60000

-- `atomic_inc_return` counts in an int, whose sign is bit 31.
unfoldable pub recovery_budget_take : ℕ → Chip → Chip × Bool
recovery_budget_take now c =
    let window_start = c.recovery_window_start in
    let counted = u32 (c.recovery_attempts + 1) in
    if (window_start == 0) || ltb (recovery_window_ms * nsec_per_msec) (sub64 now window_start)
    then (record c { recovery_window_start = now; recovery_attempts = 1 }, true)
    else (
      record c { recovery_attempts = counted },
      leb counted recovery_max_attempts || leb (2 ^ 31) counted,
    )

-- The calls at these times, one after the other, and how many of them were granted.
unfoldable pub takes : List ℕ → Chip → Chip × ℕ
takes [] c = (c, 0)
takes (now ∷ later) c =
    let (c1, granted) = recovery_budget_take now c in
    let (c2, n) = takes later c1 in (c2, if granted then n + 1 else n)

-- Every time lies in the window that opened at `start`.
pub data IsWithin (start : ℕ) : List ℕ → Type 0 where
  done : IsWithin start []
  at :
      {now : ℕ} {later : List ℕ}
      → start ≤ now
      → now ≤ start + recovery_window_ms * nsec_per_msec
      → now < 2 ^ 64
      → IsWithin start later
      → IsWithin start (now ∷ later)

take-live :
    (now : ℕ) (c : Chip)
    → 0 < c.recovery_window_start
    → c.recovery_window_start ≤ now
    → now ≤ c.recovery_window_start + recovery_window_ms * nsec_per_msec
    → now < 2 ^ 64
    → c.recovery_attempts + 1 < 2 ^ 31
    → recovery_budget_take now c ≡ (
      record c { recovery_attempts = c.recovery_attempts + 1 },
      leb (c.recovery_attempts + 1) recovery_max_attempts,
    )
unfolding recovery_budget_take
take-live now c pos lo hi fits h =
    let small : u32 (c.recovery_attempts + 1) ≡ c.recovery_attempts + 1 = omega arith in
    let live : ((c.recovery_window_start == 0)
          || ltb (recovery_window_ms * nsec_per_msec) (sub64 now c.recovery_window_start))
        ≡ false =
      ground arith in
    let positive : (leb (c.recovery_attempts + 1) recovery_max_attempts
          || leb (2 ^ 31) (c.recovery_attempts + 1))
        ≡ leb (c.recovery_attempts + 1) recovery_max_attempts =
      ground arith in
    rw (live, small, positive)

take-expired :
    (now : ℕ) (c : Chip)
    → (c.recovery_window_start ≡ 0
        ⊎ recovery_window_ms * nsec_per_msec < sub64 now c.recovery_window_start)
    → recovery_budget_take now c
      ≡ (record c { recovery_window_start = now; recovery_attempts = 1 }, true)
unfolding recovery_budget_take
take-expired now c (inl e) = let t : (c.recovery_window_start == 0) ≡ true = ground arith in rw t
take-expired now c (inr e) =
    let t : ((c.recovery_window_start == 0)
          || ltb (recovery_window_ms * nsec_per_msec) (sub64 now c.recovery_window_start))
        ≡ true =
      ground arith in
    rw t

takes-live :
    (times : List ℕ) (c : Chip)
    → 0 < c.recovery_window_start
    → IsWithin c.recovery_window_start times
    → c.recovery_attempts + length times < 2 ^ 31
    → (takes times c).1 ≡ min (length times) (recovery_max_attempts - c.recovery_attempts)
unfolding takes
takes-live [] c pos w h = omega arith
takes-live (now ∷ later) c pos (at lo hi fits rest) h =
    let next =
      takes-live later (record c { recovery_attempts = c.recovery_attempts + 1 }) pos rest
        (omega arith) in
    rw (take-live now c pos lo hi fits (omega arith)) (ground (arith, next))

-- A window that is opened at `now`, because none was open or the open one is over a minute old,
-- grants that reset and, however often the budget is asked within the next 60 seconds, two more.
takes-window :
    (now : ℕ) (times : List ℕ) (c : Chip)
    → 0 < now
    → (c.recovery_window_start ≡ 0
        ⊎ recovery_window_ms * nsec_per_msec < sub64 now c.recovery_window_start)
    → IsWithin now times
    → length times + 1 < 2 ^ 31
    → (takes (now ∷ times) c).1 ≡ min (length times + 1) recovery_max_attempts
unfolding takes
takes-window now times c pos expired w h =
    let later =
      takes-live times (record c { recovery_window_start = now; recovery_attempts = 1 }) pos w
        (omega arith) in
    rw (take-expired now c expired) (omega (arith, later))
