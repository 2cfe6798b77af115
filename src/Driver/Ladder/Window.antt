-- ===== src/Driver/Ladder/Window.antt =====
-- The ladders of one window of the reset budget (jockey3.c), one after the other.
use alsa_jockey.Prelude.{ℕ, ◌+◌, ◌-◌, ◌^◌, ◌≤◌, ◌<◌, ◌≡◌, ap, sym, ◌∙◌, arith}
use alsa_jockey.Stream.State.{Direction}
use alsa_jockey.Recovery.Budget.{recovery_max_attempts}
use alsa_jockey.Driver.World.{Host, World}
use alsa_jockey.Driver.Ladder.{recover_urb_stream}
use alsa_jockey.Driver.Frames.{resets, Ledger, ledger}
use alsa_jockey.Driver.Ladder.Resets.{IsSpent, unspent, fresh, counted, recover_urb_stream-IsLadder}

module _ {Env Src : Type 0} (host : Host Env Src) where
  -- A run with `n` calls of recover_urb_stream in it, at each of which the budget's window is the
  -- one that was opened at `start`; between them anything that leaves the ledger alone, as the stops,
  -- starts, resets, completions and waits do.
  pub data Run (start : ℕ) : World Env Src → World Env Src → ℕ → Type 0 where
    ended : {w : World Env Src} → Run start w w 0
    recovers :
        {w v : World Env Src} {n : ℕ} (d : Direction)
        → w.chip.recovery_window_start ≡ start
        → (recover_urb_stream host d w).0.chip.recovery_window_start ≡ start
        → Run start (recover_urb_stream host d w).0 v n
        → Run start w v (n + 1)
    else_happens :
        {w u v : World Env Src} {n : ℕ} → ledger u ≡ ledger w → Run start u v n → Run start w v n

  one_ladder :
      {start : ℕ} {a b : Ledger}
      → 0 < start
      → a.window ≡ start
      → b.window ≡ start
      → IsSpent a b
      → (a.attempts ≤ b.attempts)
        × (b.attempts ≤ a.attempts + 1)
        × (b.asked + (recovery_max_attempts - b.attempts)
            ≤ a.asked + (recovery_max_attempts - a.attempts))
  one_ladder pos p q (unspent x y z) = omega (arith, y, z)
  one_ladder pos p q (fresh x y z) = omega (arith, x (q ∙ sym p))
  one_ladder pos p q (counted x y z) = (omega (arith, y), omega (arith, y), ground (arith, y, z))

  -- Within one window of the reset budget, however often the watchdog, .prepare and hw_params
  -- call recover_urb_stream, for either direction, and whatever else happens between the calls, no
  -- more resets are asked for than the 3 attempts that the window allows, less those used up
  -- before; the count of attempts is taken to fit its int.
  pub recoveries-resets :
      {start n : ℕ} {w v : World Env Src}
      → 0 < start
      → w.chip.recovery_attempts + n < 2 ^ 31
      → Run start w v n
      → resets v.notes ≤ resets w.notes + (recovery_max_attempts - w.chip.recovery_attempts)
  recoveries-resets pos h ended = omega arith
  recoveries-resets {w = w} pos h (recovers d p q run) =
      let spent = one_ladder pos p q (recover_urb_stream-IsLadder host d w (omega arith)).0.spent in
      let later = recoveries-resets pos (omega (arith, spent)) run in omega (arith, spent, later)
  recoveries-resets pos h (else_happens e run) =
      let attempts = ap (λ (l : Ledger). l.attempts) e in
      let asked = ap (λ (l : Ledger). l.asked) e in
      let later = recoveries-resets pos (omega (arith, attempts)) run in
      omega (arith, attempts, asked, later)
