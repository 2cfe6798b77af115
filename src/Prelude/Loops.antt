-- ===== src/Prelude/Loops.antt =====
-- `for (k = i; k < i + n; k++) s = body k s`, with its invariant rule.
use Prim.Native.Nat.{ℕ, zero, suc, ◌+◌, ◌<◌}
use mathlib.Core.Path.{◌≡◌, subst}
use native.Mathlib.Omega.{arith}

-- So many rounds, counted up from the second argument.
unfoldable pub for_range {ℓ} : {State : Type ℓ} → ℕ → ℕ → (ℕ → State → State) → State → State
for_range zero k round state = state
for_range (suc left) k round state = for_range left (k + 1) round (round k state)

-- What holds at the start and is kept by each round below the end holds at the end.
module _ {ℓ κ} {State : Type ℓ} (Inv : ℕ → State → Type κ) (round : ℕ → State → State) (end : ℕ)
    (kept : (k : ℕ) (state : State) → k < end → Inv k state → Inv (k + 1) (round k state)) where
  pub for_range_inv :
      (left k : ℕ) (state : State)
      → k + left ≡ end
      → Inv k state
      → Inv end (for_range left k round state)
  unfolding for_range
  for_range_inv zero k state stop now = subst (λ (t : ℕ). Inv t state) (omega arith) now
  for_range_inv (suc left) k state stop now =
      for_range_inv left (k + 1) (round k state) (omega arith) (kept k state (omega arith) now)
